-- ===== src/Sim/PifoNaive/Drain/Slots.antt =====
-- The slots in which a `PIFO_Naive` queue empties.
use homa_nic.Prelude.{
  ℕ, zero, suc, ◌≤◌, ◌<◌, ◌^◌, ◌≡◌, ◌∙◌, refl, ap, arith, Bool, true, false, ◌==◌, [], length,
  Bool-cases, inl, inr,
}
use homa_nic.Prelude.{Any, Never, Ends, Returns, Ends->>=, Ends-map, Ends-and, Ends-of-Returns}
use homa_nic.Prelude.Int.{pos}
use homa_nic.Sim.Multiset.{count}
use homa_nic.Sim.Base.{Base, Object, add64, departure}
use homa_nic.Sim.Qsim.{snapshot_slot, snapshot_loop}
use homa_nic.Sim.PifoNaive.{Own, pifo_naive, empty, step}
use homa_nic.Sim.PifoNaive.System.{InSystem}
use homa_nic.Sim.PifoNaive.Events.{Kept, departure-Kept}
use homa_nic.Sim.PifoNaive.Run.{step-Kept}
use homa_nic.Sim.PifoNaive.Step.{SameBase, step-conserves}
use homa_nic.Sim.PifoNaive.Ready.{Ready, step-Ready}
use homa_nic.Sim.PifoNaive.Drain.{too_long, work}
use homa_nic.Sim.PifoNaive.Drain.Departing.{
  Nearer, pending_same, backlog-lt-pending, pending-le-work, work_used, nil_of_length, empty_length,
  held_in_queue, departure-Nearer,
}

module _ (all : Bool) (n : ℕ) (h : 8 ≤ n) (k : n < 2 ^ 31) where
  -- What a slot does to a queue that holds a message.
  abbrev pub Drained : Base → Own → Object Own → Type 0
  Drained b o u = Kept all b u × (count too_long u.base.gqueue ≡ 0) × (work u.base u.own < work b o)

  -- What a step leaves, and that a message is in the sorted queue then, when there is one.
  abbrev Stepped : Object Own → Object Own → Type 0
  Stepped t u =
      SameBase t.base u.base
      × (u.own.active ≡ t.own.active)
      × (1 ≤ length t.base.gqueue → Ready u.own)

  step-Stepped :
      (ts : ℕ) (t : Object Own)
      → InSystem all t.base t.own
      → Ends Any (Stepped t) (step (pos n) ts t)
  step-Stepped ts t v = elim (Bool-cases (length t.base.gqueue == 0)) [
    | inl q ↦
        Ends-map Any _ _ (step (pos n) ts t) (λ u c. (c.3, c.2, λ m. absurd (ground arith)))
          (Ends-of-Returns Any _ (step (pos n) ts t) (step-conserves n ts t h k v.places))
    | inr q ↦
        Ends-map Any _ _ (step (pos n) ts t) (λ u c. (c.0.3, c.0.2, λ m. c.1))
          (Ends-and Any Any _ (λ u. Ready u.own) (step (pos n) ts t)
            (Ends-of-Returns Any _ (step (pos n) ts t) (step-conserves n ts t h k v.places))
            (step-Ready n ts t h k v.places (held_in_queue t.base t.own v (ground arith))))
  ]

  -- The step behind a departure.
  pub step-Drained :
      (ts : ℕ) (b : Base) (o : Own) (t : Object Own)
      → Kept all b t
      → Nearer b o t
      → Returns (λ u. Drained b o u × (u.own.active ≡ t.own.active)) (step (pos n) ts t)
  step-Drained ts b o t a d =
      Ends-map Never (λ u. Kept all t.base u × Stepped t u)
        (λ u. Drained b o u × (u.own.active ≡ t.own.active)) (step (pos n) ts t)
        (λ u c.
          let same : SameBase t.base u.base = c.1.0 in
          let ready : 1 ≤ length u.base.gqueue → Ready u.own = rw same.0 c.1.2 in
          (
            (
              (c.0.0, c.0.1 ∙ a.1),
              ap (count too_long) same.0 ∙ d.0,
              omega (
                arith,
                work_used u.base u.own ready,
                pending_same t.base u.base same.0 same.2,
                d.1,
              ),
            ),
            c.1.1,
          ))
        (Ends-and Never Any (Kept all t.base) (Stepped t) (step (pos n) ts t)
          (step-Kept all n h k ts t.base t.own a.0) (step-Stepped ts t a.0))

  slot-Drained :
      (ts : ℕ) (b : Base) (o : Own)
      → InSystem all b o
      → count too_long b.gqueue ≡ 0
      → empty o ≡ false
      → Returns (Drained b o) (snapshot_slot (pifo_naive (pos n)) ts (record { base = b; own = o }))
  unfolding snapshot_slot
  slot-Drained ts b o v f q =
      Ends->>= Never (λ t. Kept all b t × Nearer b o t) (Drained b o)
        (departure (pifo_naive (pos n)) ts (record { base = b; own = o })) _
        (Ends-and Never Any (Kept all b) (Nearer b o)
          (departure (pifo_naive (pos n)) ts (record { base = b; own = o }))
          (departure-Kept (pos n) ts b o v) (departure-Nearer n ts b o v f q))
        (λ t d.
          Ends-map Never _ (Drained b o) (step (pos n) ts t) (λ u c. c.0)
            (step-Drained ts b o t d.0 d.1))

  -- What is left of a queue that has been emptied.
  abbrev pub Emptied : Base → Object Own → Type 0
  Emptied b t = Kept all b t × (t.base.gqueue ≡ []) × (t.own.active ≡ pos 0)

  drain-Emptied :
      (fuel ts : ℕ) (b : Base) (o : Own)
      → InSystem all b o
      → count too_long b.gqueue ≡ 0
      → work b o ≤ fuel
      → Returns
          (Emptied b)
          (snapshot_loop (pifo_naive (pos n)) fuel ts (record { base = b; own = o }))
  unfolding snapshot_loop
  drain-Emptied zero ts b o v f w =
      absurd (omega (arith, backlog-lt-pending b, pending-le-work b o))
  drain-Emptied (suc fuel) ts b o v f w = elim (Bool-cases (empty o)) [
    | inl q ↦
        let none : length b.gqueue ≡ 0 = empty_length b o v q in
        rw (q, snapshot_loop) ((v, refl), nil_of_length b.gqueue none, v.active ∙ ap pos none)
    | inr q ↦
        rw (q, snapshot_loop)
          (Ends->>= Never (Drained b o) (Emptied b)
            (snapshot_slot (pifo_naive (pos n)) ts (record { base = b; own = o })) _
            (slot-Drained ts b o v f q)
            (λ t d.
              Ends-map Never (Emptied t.base) (Emptied b)
                (snapshot_loop (pifo_naive (pos n)) fuel (add64 ts 1) t)
                (λ u c. ((c.0.0, c.0.1 ∙ d.0.1), c.1, c.2))
                (drain-Emptied fuel (add64 ts 1) t.base t.own d.0.0 d.1 (omega (arith, w, d.2)))))
  ]

  -- A `PIFO_Naive` queue with at least 8 priorities that is in step with its `gqueue`, and each of
  -- whose messages fits an `int`, is empty after at most as many slots without arrivals as it has
  -- chunks to send and being sent, one more when the service node is free, and one more when
  -- messages wait and none of them is in the sorted queue. Its `gqueue` is empty then too, and
  -- each message that arrived is complete, when statistics have been gathered from the start.
  pub backlog_clears :
      (fuel ts : ℕ) (b : Base) (o : Own)
      → InSystem all b o
      → count too_long b.gqueue ≡ 0
      → work b o ≤ fuel
      → Returns
          (λ t.
            (t.own.active ≡ pos 0)
            × (t.base.gqueue ≡ [])
            × (all ≡ true → t.base.simstats.comps ≡ b.id))
          (snapshot_loop (pifo_naive (pos n)) fuel ts (record { base = b; own = o }))
  backlog_clears fuel ts b o v f w =
      Ends-map Never (Emptied b) _
        (snapshot_loop (pifo_naive (pos n)) fuel ts (record { base = b; own = o }))
        (λ t d. (d.2, d.1, λ a. omega (arith, d.0.0.books a, d.0.1, ap length d.1)))
        (drain-Emptied fuel ts b o v f w)
