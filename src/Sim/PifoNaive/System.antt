-- ===== src/Sim/PifoNaive/System.antt =====
-- `PIFO_Naive` and the reference multiset `gqueue` of its base class hold the same messages.
use homa_nic.Prelude.{
  ℕ, suc, ◌+◌, ◌≤◌, ◌<◌, ◌^◌, ◌≡◌, ◌∙◌, refl, Bool, true, ◌&&◌, not, arith, leb, ◌==◌, List, ◌∷◌,
  length,
}
use homa_nic.Prelude.Int.{pos, ltb_ℤ, leb_ℤ}
use homa_nic.Sim.Entry.{Entry, equiv, equiv_refl, equiv-id}
use homa_nic.Sim.Multiset.{
  count, SameEntries, erase, erase_count, count-erase, erase_count-count, count_mono, count_all,
}
use homa_nic.Sim.Base.{Base}
use homa_nic.Sim.PifoNaive.{Own}
use homa_nic.Sim.PifoNaive.Places.{bit}
use homa_nic.Sim.PifoNaive.Contents
use homa_nic.Sim.PifoNaive.Contents.{contents, tally, count-contents}

-- Nothing is left to send, or more than the message is long.
unfoldable pub overdue : Entry → Bool
overdue e = not (ltb_ℤ (pos 0) e.remaining && leb_ℤ e.remaining e.length)

-- `all` says that the statistics have been gathered from the start.
pub record InSystem (all : Bool) (b : Base) (o : Own) : Type 0 where
  pub places : Contents.IsValid o
  pub same : SameEntries b.gqueue (contents o)
  pub distinct : (n : ℕ) → count (λ x. x.id == n) b.gqueue ≤ 1
  pub below : count (λ x. leb b.id x.id) b.gqueue ≡ 0
  pub unsent : count overdue b.gqueue ≡ 0
  pub active : o.active ≡ pos (length b.gqueue)
  pub counted : all ≡ true → b.gstats ≡ true
  pub books : all ≡ true → b.simstats.comps + length b.gqueue ≡ b.id
  pub at_most : b.simstats.comps + length b.gqueue ≤ b.id
  pub word : b.id < 2 ^ 64

count-equiv-le :
    (e : Entry) (g : List Entry) → ((n : ℕ) → count (λ x. x.id == n) g ≤ 1) → count (equiv e) g ≤ 1
count-equiv-le e g d = omega (
  arith,
  d e.id,
  count_mono (equiv e) (λ x. x.id == e.id) g (λ x h. ground (arith, equiv-id e x h)),
)

count_and :
    (p : Entry → Bool) (e : Entry) (g : List Entry)
    → count (λ y. p y && equiv e y) g ≤ count (equiv e) g
count_and p e g = count_mono _ _ g (λ x h. ground arith)

pub count-first :
    (p : Entry → Bool) (e : Entry) (hw : List Entry) → count p (e ∷ hw) ≡ bit p e + count p hw
unfolding count
count-first p e hw = refl

-- A message of the queue is once in `gqueue`.
module _ (e : Entry) (rest g : List Entry) (s : SameEntries g (e ∷ rest))
    (d : (n : ℕ) → count (λ x. x.id == n) g ≤ 1) where
  pub found_once : count (equiv e) g ≡ 1
  found_once =
      ground (arith, s (equiv e), count-first (equiv e) e rest, equiv_refl e, count-equiv-le e g d)

  pub erase_count_once : erase_count e g ≡ 1
  erase_count_once = erase_count-count e g ∙ found_once

  -- Erasing it takes it away, and no other.
  pub count-erase_found : (p : Entry → Bool) → bit p e + count p (erase e g) ≡ count p g
  count-erase_found p =
      let q : Entry → Bool = λ y. p y && equiv e y in
      ground (
        arith,
        count-erase p e g,
        s q,
        count-first q e rest,
        count_and p e rest,
        s (equiv e),
        count-first (equiv e) e rest,
        equiv_refl e,
        found_once,
      )

  pub length-erase_found : suc (length (erase e g)) ≡ length g
  length-erase_found =
      omega (arith, count-erase_found (λ _. true), count_all g, count_all (erase e g))
