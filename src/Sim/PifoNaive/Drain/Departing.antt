-- ===== src/Sim/PifoNaive/Drain/Departing.antt =====
-- A departure brings a `PIFO_Naive` queue nearer to its end.
use homa_nic.Prelude.{
  ℕ, suc, ◌≤◌, ◌<◌, ◌≡◌, ◌∙◌, refl, ap, arith, Bool, true, false, ◌==◌, List, [], ◌∷◌, length,
  Bool-cases, inl, inr,
}
use homa_nic.Prelude.{Any, Ends, Ends->>=, Ends-map, Ends-and, Ends-of-Returns}
use homa_nic.Prelude.Int.{pos}
use homa_nic.Sim.Entry.{Entry}
use homa_nic.Sim.Multiset.{count, count_all}
use homa_nic.Sim.Base.{Base, Object, serve, send, departure, account, note_underflow}
use homa_nic.Sim.Ideal.Invariant.{busy}
use homa_nic.Sim.Ideal.Service.{backlog}
use homa_nic.Sim.PifoNaive.{Own, pifo_naive, empty}
use homa_nic.Sim.PifoNaive.Contents.{count-contents}
use homa_nic.Sim.PifoNaive.System.{InSystem}
use homa_nic.Sim.PifoNaive.Departure.{
  Settled, account-Settled, dequeue_front, dequeue_none, front_length, front_once, front_unsent,
  note_underflow-Noted,
}
use homa_nic.Sim.PifoNaive.Events.{account_null, serve-InSystem, buff-InSystem}
use homa_nic.Sim.PifoNaive.Ready.{Ready, size}
use homa_nic.Sim.PifoNaive.Drain.{too_long, pending, work}
use homa_nic.Sim.PifoNaive.Drain.Accounts.{
  SameBuff, note_underflow-SameBuff, account-SameBuff, settled-Fits, pending_sent,
}

-- A departure of a queue that holds a message.
abbrev pub Nearer : Base → Own → Object Own → Type 0
Nearer b o t = (count too_long t.base.gqueue ≡ 0) × (pending t.base < work b o)

pub pending_same : (b c : Base) → c.gqueue ≡ b.gqueue → c.buff ≡ b.buff → pending c ≡ pending b
unfolding pending
pending_same b c h k = rw (h, k) refl

pub backlog-lt-pending : (b : Base) → backlog b.gqueue < pending b
unfolding pending
backlog-lt-pending b = ground arith

pub pending-le-work : (b : Base) (o : Own) → pending b ≤ work b o
unfolding work
pending-le-work b o = ground arith

work_wasted :
    (b : Base) (o : Own) → o.hwqueue ≡ [] → 1 ≤ length b.gqueue → work b o ≡ suc (pending b)
unfolding work
work_wasted b o h m = rw h (ground arith)

-- No wasted slot, when the sorted queue has a message or none waits.
pub work_used : (b : Base) (o : Own) → (1 ≤ length b.gqueue → Ready o) → work b o ≡ pending b
unfolding work
work_used b o h = ground (arith, h)

lost :
    (b : Base) (o : Own)
    → o.hwqueue ≡ []
    → count too_long b.gqueue ≡ 0
    → 1 ≤ length b.gqueue
    → (count too_long (note_underflow b).gqueue ≡ 0) × (pending (note_underflow b) < work b o)
lost b o h f m =
    let g = note_underflow-Noted b in
    (
      ap (count too_long) g.0 ∙ f,
      omega (
        arith,
        pending_same b (note_underflow b) g.0 (note_underflow-SameBuff b),
        work_wasted b o h m,
      ),
    )

-- The service node works on, or is free in this slot.
served :
    (ts : ℕ) (b : Base) (o : Own)
    → ((serve ts b).buff == 0) ≡ false
    → pending (serve ts b) < work b o
unfolding pending work serve
served ts b o p = ground arith

freed : (ts : ℕ) (b : Base) (o : Own) → (serve ts b).buff ≡ 0 → work (serve ts b) o ≤ work b o
unfolding pending work serve
freed ts b o p = ground arith

pub nil_of_length : (g : List Entry) → length g ≡ 0 → g ≡ []
nil_of_length [] h = refl
nil_of_length (x ∷ g) h = absurd (omega arith)

pub empty_length :
    {all : Bool} (b : Base) (o : Own) → InSystem all b o → empty o ≡ true → length b.gqueue ≡ 0
unfolding empty
empty_length b o v q = ground (arith, v.active)

active_length :
    {all : Bool} (b : Base) (o : Own) → InSystem all b o → empty o ≡ false → 1 ≤ length b.gqueue
unfolding empty
active_length b o v q = ground (arith, v.active)

pub held_in_queue :
    {all : Bool} (b : Base) (o : Own) → InSystem all b o → 1 ≤ length b.gqueue → 1 ≤ size o
held_in_queue b o v h =
    omega (arith, h, v.same (λ _. true), count-contents (λ _. true) o, count_all b.gqueue)

module _ {all : Bool} (n : ℕ) where
  send-Nearer :
      (ts : ℕ) (b : Base) (o : Own) (l : List Entry)
      → o.hwqueue ≡ l
      → InSystem all b o
      → count too_long b.gqueue ≡ 0
      → empty o ≡ false
      → b.buff ≡ 0
      → 1 ≤ length b.gqueue
      → Ends Any (Nearer b o) (send (pifo_naive (pos n)) ts (record { base = b; own = o }))
  unfolding send
  send-Nearer ts b o [] h v f q k m = rw (q, dequeue_none b o h, account_null ts b) (lost b o h f m)
  send-Nearer ts b o (e ∷ hw) h v f q k m =
      let c : Base = record b { buff = busy e } in
      let w : InSystem all c o = buff-InSystem (busy e) b o v in
      rw (q, dequeue_front e hw b o h)
        (Ends->>= Any (λ t. Settled e c t × SameBuff c t) (Nearer b o) (account ts e c) _
          (Ends-and Any Any (Settled e c) (SameBuff c) (account ts e c)
            (Ends-of-Returns Any (Settled e c) (account ts e c) (
              account-Settled ts e c (front_unsent c c o e hw w h)
                (omega (arith, front_length c c o e hw w h)) (front_once c c o e hw w h)))
            (account-SameBuff ts e c))
          (λ t s. (
            settled-Fits all c t o e hw w h f s.0,
            omega (
              arith,
              pending_sent all c t o e hw w h f s.0 s.1,
              backlog-lt-pending b,
              pending-le-work b o,
            ),
          )))

  pub departure-Nearer :
      (ts : ℕ) (b : Base) (o : Own)
      → InSystem all b o
      → count too_long b.gqueue ≡ 0
      → empty o ≡ false
      → Ends Any (Nearer b o) (departure (pifo_naive (pos n)) ts (record { base = b; own = o }))
  unfolding departure
  departure-Nearer ts b o v f q =
      let c : Base = serve ts b in
      let w : InSystem all c o = serve-InSystem ts b o v in
      elim (Bool-cases (c.buff == 0)) [
        | inr p ↦ rw p (unfold serve in f, served ts b o p)
        | inl p ↦
            let z : c.buff ≡ 0 = ground arith in
            rw p (
              Ends-map Any (Nearer c o) (Nearer b o)
                (send (pifo_naive (pos n)) ts (record { base = c; own = o }))
                (λ t d. (d.0, omega (arith, d.1, freed ts b o z)))
                (send-Nearer ts c o o.hwqueue refl w (unfold serve in f) q z
                  (active_length c o w q)))
      ]
