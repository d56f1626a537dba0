-- ===== src/Sim/PifoNaive/Drain/Ending.antt =====
-- The draining mode of model/qsim.cc over a `PIFO_Naive` queue: a drain that has begun ends.
use homa_nic.Prelude.{
  ℕ, zero, suc, ◌+◌, ◌≤◌, ◌<◌, ◌^◌, ◌≡◌, ◌⊎◌, refl, arith, Bool, true, false, ltb, not, ◌&&◌,
  if◌then◌else◌, Bool-cases, inl, inr,
}
use homa_nic.Prelude.{ok, Any, Never, Ends, Returns, Ends->>=, Ends-map, Ends-and, Ends-Any, ◌>>=◌}
use homa_nic.Prelude.Int.{ℤ, pos, eq_ℤ, ◌<ℤ◌, to_u32}
use homa_nic.Sim.Multiset.{count}
use homa_nic.Sim.Base.{Base, add64, departure, arrival}
use homa_nic.Sim.Qsim.{Process, Run, deliver, begin_drain, end_drain, pulse, pulse_loop}
use homa_nic.Sim.PifoNaive.{Own, pifo_naive, empty, step}
use homa_nic.Sim.PifoNaive.System.{InSystem}
use homa_nic.Sim.PifoNaive.Events.{Kept, departure-Kept}
use homa_nic.Sim.PifoNaive.Run.{Q, Advanced, step-Kept, deliver-Advanced}
use homa_nic.Sim.PifoNaive.Pulse.{gstats-InSystem}
use homa_nic.Sim.PifoNaive.Drain.{too_long, work}
use homa_nic.Sim.PifoNaive.Drain.Departing.{
  Nearer, backlog-lt-pending, pending-le-work, departure-Nearer,
}
use homa_nic.Sim.PifoNaive.Drain.Slots.{Drained, step-Drained}

module _ (R : Process) where
  -- Arrivals do not count as pulses.
  abbrev SameDrain : Run R.Time Own → Run R.Time Own → Type 0
  SameDrain r t = (t.drain ≡ r.drain) × (t.pulses ≡ r.pulses)

  deliver-SameDrain :
      (priorities : ℤ) (now : Bool) (ts : ℕ) (r : Run R.Time Own)
      → Ends Any (SameDrain r) (if now then deliver R (pifo_naive priorities) ts r else ok r)
  unfolding deliver
  deliver-SameDrain priorities false ts r = (refl, refl)
  deliver-SameDrain priorities true ts r = elim (Bool-cases (eq_ℤ r.next_length (pos 0))) [
    | inl p ↦ rw p tt
    | inr p ↦ rw p (
        Ends->>= Any (λ q. Unit {0}) (SameDrain r)
          (arrival (pifo_naive priorities) ts r.next_length r.queue) _ (Ends-Any _)
          (λ q u. (refl, refl)))
  ]

  begin_drain-on :
      (priorities : ℤ) (max : ℕ) (r : Run R.Time Own)
      → r.drain ≡ true
      → begin_drain R (pifo_naive priorities) max r ≡ r
  unfolding begin_drain
  begin_drain-on priorities max r h =
      let q : (ltb max (to_u32 r.queue.own.active) && not r.drain) ≡ false = ground (arith, h) in
      rw q refl

  -- The drain ends in this round, or goes on.
  abbrev ended : ℕ → Run R.Time Own → Run R.Time Own
  ended ts r = record r {
    queue = record (r.queue) { base = record (r.queue.base) { gstats = false } };
    drain = false;
    pulses = r.pulses + 1;
    next_arrival = R.add (R.of_slot ts) (R.gap r.drawn);
    drawn = suc r.drawn;
  }

  end_drain-empty :
      (priorities : ℤ) (ts : ℕ) (r : Run R.Time Own)
      → r.drain ≡ true
      → eq_ℤ r.queue.own.active (pos 0) ≡ true
      → end_drain R (pifo_naive priorities) ts r ≡ ended ts r
  unfolding end_drain
  end_drain-empty priorities ts r h e =
      let q : (eq_ℤ r.queue.own.active (pos 0) && r.drain) ≡ true = ground (arith, h, e) in
      rw q refl

  end_drain-busy :
      (priorities : ℤ) (ts : ℕ) (r : Run R.Time Own)
      → eq_ℤ r.queue.own.active (pos 0) ≡ false
      → end_drain R (pifo_naive priorities) ts r ≡ r
  unfolding end_drain
  end_drain-busy priorities ts r e =
      let q : (eq_ℤ r.queue.own.active (pos 0) && r.drain) ≡ false = ground (arith, e) in rw q refl

module _ (R : Process) (positive : (k : ℕ) → pos 0 <ℤ R.chunks k) (n : ℕ) (h : 8 ≤ n)
    (k : n < 2 ^ 31) where
  -- A draining run, between two rounds.
  abbrev pub Draining : Q false R positive n h k → Type 0
  Draining r =
      InSystem false r.queue.base r.queue.own
      × (count too_long r.queue.base.gqueue ≡ 0)
      × (empty r.queue.own ≡ false)
      × (r.drain ≡ true)
      × (pos 0 <ℤ r.next_length)

  -- A run whose drain has ended.
  abbrev pub Ended : ℕ → Q false R positive n h k → Type 0
  Ended pulses t =
      (t.pulses ≡ pulses + 1) × (t.drain ≡ false) × InSystem false t.queue.base t.queue.own

  -- A round of a draining run goes on nearer to the end, or is the end.
  abbrev Round : Q false R positive n h k → Q false R positive n h k → Type 0
  Round r t =
      (Draining t
        × (t.pulses ≡ r.pulses)
        × (t.queue.base.id ≡ r.queue.base.id)
        × (work t.queue.base t.queue.own < work r.queue.base r.queue.own))
      ⊎ Ended r.pulses t

  still_busy :
      (o o' : Own) → o'.active ≡ o.active → eq_ℤ o.active (pos 0) ≡ false → empty o' ≡ false
  unfolding empty
  still_busy o o' a e = rw a e

  -- What follows the end of a drain in its round.
  last-Ended :
      (ts : ℕ) (r : Q false R positive n h k)
      → InSystem false r.queue.base r.queue.own
      → pos 0 <ℤ r.next_length
      → suc r.queue.base.id < 2 ^ 64
      → Returns (Ended r.pulses) (
          let r' : Q false R positive n h k = ended R ts r in
          (if R.reached r'.next_arrival ts && not r'.drain
            then deliver R (pifo_naive (pos n)) ts r'
            else ok r')
          >>= λ t. step (pos n) ts t.queue >>= λ q. ok (record t { queue = q }))
  last-Ended ts r v l small =
      let r' : Q false R positive n h k = ended R ts r in
      let b : Base = r'.queue.base in
      let now : Bool = R.reached r'.next_arrival ts && not r'.drain in
      Ends->>= Never (λ t. Advanced false R positive n h k 1 b t × SameDrain R r' t)
        (Ended r.pulses) (if now then deliver R (pifo_naive (pos n)) ts r' else ok r') _
        (Ends-and Never Any (Advanced false R positive n h k 1 b) (SameDrain R r')
          (if now then deliver R (pifo_naive (pos n)) ts r' else ok r')
          (deliver-Advanced false R positive n h k now ts b r'
            (gstats-InSystem false r.queue.base r.queue.own v) refl l small)
          (deliver-SameDrain R (pos n) now ts r'))
        (λ t a.
          Ends->>= Never (Kept false t.queue.base) (Ended r.pulses) (step (pos n) ts t.queue) _
            (step-Kept false n h k ts t.queue.base t.queue.own a.0.0) (λ q m. (a.1.1, a.1.0, m.0)))

  pulse-Round :
      (max ts : ℕ) (r : Q false R positive n h k)
      → Draining r
      → suc r.queue.base.id < 2 ^ 64
      → Returns (Round r) (pulse R (pifo_naive (pos n)) max ts r)
  unfolding pulse
  pulse-Round max ts r v small =
      let b : Base = r.queue.base in
      let o : Own = r.queue.own in
      Ends->>= Never (λ q. Kept false b q × Nearer b o q) (Round r)
        (departure (pifo_naive (pos n)) ts r.queue) _
        (Ends-and Never Any (Kept false b) (Nearer b o) (departure (pifo_naive (pos n)) ts r.queue)
          (departure-Kept (pos n) ts b o v.0) (departure-Nearer n ts b o v.0 v.1 v.2))
        (λ q d.
          let r' : Q false R positive n h k = record r { queue = q } in
          rw (begin_drain-on R (pos n) max r' v.3) (elim (Bool-cases (eq_ℤ q.own.active (pos 0))) [
            | inl e ↦ rw (end_drain-empty R (pos n) ts r' v.3 e) (
                Ends-map Never (Ended r.pulses) (Round r) _ (λ t w. inr w)
                  (last-Ended ts r' d.0.0 v.4 (omega (arith, d.0.1))))
            | inr e ↦
                let closed : (R.reached r.next_arrival ts && not r.drain) ≡ false =
                  ground (arith, v.3) in
                rw (end_drain-busy R (pos n) ts r' e, closed)
                  (Ends->>= Never (λ u. Drained false n h k b o u × (u.own.active ≡ q.own.active))
                    (Round r) (step (pos n) ts q) _ (step-Drained false n h k ts b o q d.0 d.1)
                    (λ u c. inl (
                      (c.0.0.0, c.0.1, still_busy q.own u.own c.1 e, v.3, v.4),
                      refl,
                      c.0.0.1,
                      c.0.2,
                    )))
          ]))

  stops :
      (fuel max ts pulses : ℕ) (t : Q false R positive n h k)
      → Ended pulses t
      → Returns (Ended pulses) (pulse_loop R (pifo_naive (pos n)) fuel max (pulses + 1) ts t)
  unfolding pulse_loop
  stops zero max ts pulses t d = d
  stops (suc fuel) max ts pulses t d =
      let done : ltb t.pulses (pulses + 1) ≡ false = ground (arith, d.0) in rw (done, pulse_loop) d

  -- A drain that has begun ends: with at least 8 priorities, and messages that each fit an `int`,
  -- a draining run that needs one more pulse completes it and stops after at most as many slots as
  -- it has work, whatever the arrival process and `max`. The queue is then in step with its
  -- `gqueue`.
  pub drain_ends :
      (fuel max ts : ℕ) (r : Q false R positive n h k)
      → Draining r
      → work r.queue.base r.queue.own ≤ fuel
      → suc r.queue.base.id < 2 ^ 64
      → Returns (Ended r.pulses) (pulse_loop R (pifo_naive (pos n)) fuel max (r.pulses + 1) ts r)
  unfolding pulse_loop
  drain_ends zero max ts r v w small =
      absurd
        (omega (arith, backlog-lt-pending r.queue.base, pending-le-work r.queue.base r.queue.own))
  drain_ends (suc fuel) max ts r v w small =
      let more : ltb r.pulses (r.pulses + 1) ≡ true = ground arith in
      rw (more, pulse_loop)
        (Ends->>= Never (Round r) (Ended r.pulses) (pulse R (pifo_naive (pos n)) max ts r) _
          (pulse-Round max ts r v small)
          (λ t c. elim c [
            | inl d ↦ rw (← d.1) (
                drain_ends fuel max (add64 ts 1) t d.0 (omega (arith, w, d.3))
                  (omega (arith, d.2, small)))
            | inr d ↦ stops fuel max (add64 ts 1) r.pulses t d
          ]))
