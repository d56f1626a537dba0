-- ===== src/Sim/PifoNaive/Drain/Accounts.antt =====
-- What a packet of a `PIFO_Naive` queue takes from the chunks that wait, and how long the service
-- node is busy with it.
use homa_nic.Prelude.{
  ℕ, ◌+◌, ◌≤◌, ◌<◌, ◌^◌, ◌≡◌, ◌∙◌, refl, arith, Bool, true, false, ◌==◌, List, [], ◌∷◌, Bool-cases,
  inl, inr,
}
use homa_nic.Prelude.{Any, Ends, Ends->>=, Ends-map, Ends-Any}
use homa_nic.Prelude.Int.{pos, pos_part, -ℤ_parts, eq_ℤ}
use homa_nic.Sim.Entry.{Entry, equiv}
use homa_nic.Sim.Multiset.{count, erase, erase_count, first}
use homa_nic.Sim.Base.{
  Base, account, settle, remove_entry, put_back, note_packet, note_inaccuracy, note_completion,
  note_underflow, is_last, sent,
}
use homa_nic.Sim.Ideal.Invariant.{Unsent, busy}
use homa_nic.Sim.Ideal.Service.{backlog, backlog-rest, busy_lem}
use homa_nic.Sim.PifoNaive.{Own}
use homa_nic.Sim.PifoNaive.System.{InSystem, overdue}
use homa_nic.Sim.PifoNaive.Departure.{
  Settled, front_once, front_unsent, front_erased, count-settled,
}
use homa_nic.Sim.PifoNaive.Drain.{too_long, pending}

equiv-remaining : (a b : Entry) → equiv a b ≡ true → pos_part a.remaining ≡ pos_part b.remaining
unfolding equiv
equiv-remaining a b h = ground arith

backlog-erase_none :
    (e : Entry) (g : List Entry) → erase_count e g ≡ 0 → backlog (erase e g) ≡ backlog g
unfolding backlog erase erase_count
backlog-erase_none e [] h = refl
backlog-erase_none e (x ∷ g) h = ground (arith, backlog-erase_none e g)

backlog-erase_once :
    (e : Entry) (g : List Entry)
    → erase_count e g ≡ 1
    → pos_part e.remaining + backlog (erase e g) ≡ backlog g
unfolding backlog erase erase_count
backlog-erase_once e [] h = absurd (omega arith)
backlog-erase_once e (x ∷ g) h = elim (Bool-cases (equiv e x)) [
  | inl q ↦ ground (arith, q, backlog-erase_none e g, equiv-remaining e x q)
  | inr q ↦ ground (arith, q, backlog-erase_once e g)
]

-- Accounting for a packet leaves the service node as it is.
abbrev pub SameBuff : Base → Base → Type 0
SameBuff b c = c.buff ≡ b.buff

noted-SameBuff : (e best : Entry) (b : Base) → SameBuff b (note_inaccuracy e best (note_packet b))
unfolding note_inaccuracy note_packet
noted-SameBuff e best b = ground arith

pub note_underflow-SameBuff : (b : Base) → SameBuff b (note_underflow b)
unfolding note_underflow
note_underflow-SameBuff b = ground arith

note_completion-SameBuff : (ts : ℕ) (e : Entry) (b : Base) → SameBuff b (note_completion ts e b)
unfolding note_completion
note_completion-SameBuff ts e b = ground arith

remove_entry-SameBuff : (e : Entry) (b : Base) → Ends Any (SameBuff b) (remove_entry e b)
unfolding remove_entry
remove_entry-SameBuff e b = elim (Bool-cases (erase_count e b.gqueue == 1)) [
  | inl q ↦ rw q refl
  | inr q ↦ rw q tt
]

settle-SameBuff : (ts : ℕ) (e : Entry) (b : Base) → Ends Any (SameBuff b) (settle ts e b)
unfolding settle put_back
settle-SameBuff ts e b = elim (Bool-cases (is_last e)) [
  | inl q ↦ rw q (
      Ends-map Any _ (SameBuff b) (remove_entry e (note_completion ts e b))
        (λ c k. k ∙ note_completion-SameBuff ts e b)
        (remove_entry-SameBuff e (note_completion ts e b)))
  | inr q ↦ rw q (
      Ends->>= Any (SameBuff b) (SameBuff b) (remove_entry e b) _ (remove_entry-SameBuff e b)
        (λ c k. k))
]

pub account-SameBuff : (ts : ℕ) (e : Entry) (b : Base) → Ends Any (SameBuff b) (account ts e b)
unfolding account
account-SameBuff ts e b = elim (Bool-cases (eq_ℤ e.length (pos 0))) [
  | inl q ↦ rw q (note_underflow-SameBuff b)
  | inr q ↦ rw q (
      Ends->>= Any (λ best. Unit {0}) (SameBuff b) (first b.gqueue) _ (Ends-Any _)
        (λ best u.
          Ends-map Any _ (SameBuff b) (settle ts e (note_inaccuracy e best (note_packet b)))
            (λ c k. k ∙ noted-SameBuff e best b)
            (settle-SameBuff ts e (note_inaccuracy e best (note_packet b)))))
]

too_long-sent : (e : Entry) → too_long e ≡ false → too_long (sent e) ≡ false
unfolding too_long
too_long-sent e h = ground (arith, -ℤ_parts e.remaining (pos 24))

unsent : (e : Entry) → overdue e ≡ false → Unsent e
unfolding overdue
unsent e h = ground arith

module _ (all : Bool) (b t : Base) (o : Own) (e : Entry) (hw : List Entry) (v : InSystem all b o)
    (h : o.hwqueue ≡ e ∷ hw) (f : count too_long b.gqueue ≡ 0) (s : Settled e b t) where
  pub front-Fits : too_long e ≡ false
  front-Fits = ground (arith, front_erased b t o e hw v h too_long, f)

  pub settled-Fits : count too_long t.gqueue ≡ 0
  settled-Fits = ground (
    arith,
    count-settled b t o e hw v h s too_long,
    front_erased b t o e hw v h too_long,
    f,
    too_long-sent e front-Fits,
  )

  front-Unsent : Unsent e
  front-Unsent = unsent e (front_unsent b t o e hw v h)

  -- The chunks that go out are the ones that wait no longer.
  pub backlog-settled : backlog t.gqueue + busy e ≡ backlog b.gqueue
  unfolding backlog too_long
  backlog-settled = rw s.0 (
      backlog-rest e (erase e b.gqueue) front-Unsent (ground (arith, front-Fits))
      ∙ backlog-erase_once e b.gqueue (front_once b t o e hw v h))

  pub busy_some : 1 ≤ busy e
  unfolding too_long
  busy_some =
      let small : pos_part e.remaining < 2 ^ 31 = ground (arith, front-Fits) in
      ground (arith, busy_lem e front-Unsent small, front-Unsent.0)

  -- The service node has taken up the packet.
  pub pending_sent : t.buff ≡ busy e → pending t ≡ backlog b.gqueue
  unfolding pending
  pending_sent k = ground (arith, backlog-settled, busy_some, k)
