-- ===== src/Sim/PifoNaive/Moves.antt =====
-- The moves of `PIFO_Naive` between its sorted queue, its backing list and the held entry.
use homa_nic.Prelude.{ℕ, zero, suc, ◌-◌, ◌≤◌, ◌<◌, ◌^◌, ◌≡◌, refl, Bool, true, false}
use homa_nic.Prelude.{lt_of_get_elem?, List, [], ◌∷◌, length, arith, if◌then◌else◌}
use homa_nic.Prelude.{Returns, Ends->>=, Bool-cases, inl, inr, leb, ◌&&◌, not}
use homa_nic.Prelude.Int.{ℤ, pos, negsuc, ◌+ℤ◌, ◌-ℤ◌, leb_ℤ, ltb_ℤ, eq_ℤ, to_u64, eq_of_parts}
use homa_nic.Sim.Entry.{Entry}
use homa_nic.Sim.Multiset.{count, count-insert}
use homa_nic.Sim.PifoNaive.{
  Own, Slot, minus_one, elem_at, resume, resume_at, at_int, wants_front, promote,
}
use homa_nic.Sim.PifoNaive.Places.{flags, length-erase_at, elem_at_lem, length-flags}
use homa_nic.Sim.PifoNaive.Contents.{IsValid, InRange, Unsorted, Conserved, held_count}

eq_of_test : (a b : ℤ) → eq_ℤ a b ≡ true → a ≡ b
eq_of_test a b h = eq_of_parts a b (ground arith)

resume_at-Conserved :
    (f : ℤ) (o : Own)
    → Unsorted f o.backing
    → o.scan ≡ minus_one
    → eq_ℤ f minus_one ≡ false
    → Returns (Conserved o) (resume_at f o)
unfolding resume_at
resume_at-Conserved (pos n) o u s q =
    let h : n < length o.backing =
      omega (arith, lt_of_get_elem? (flags o.backing) n u, length-flags o.backing) in
    Ends->>= _ _ (Conserved o) (elem_at o.backing n) _ (elem_at_lem n o.backing h) (λ x k.
      let clear : x.1 ≡ false = cc in
      rw clear (
        record { scan_in = omega (arith, length-erase_at n o.backing h); unsorted = tt },
        λ p. rw s (omega (arith, k.1 p)),
        refl,
      ))
resume_at-Conserved (negsuc zero) o u s q = cc
resume_at-Conserved (negsuc (suc k)) o u s q = absurd u

-- Taking up an entry that is out of place.
pub resume-Conserved : (o : Own) → IsValid o → Returns (Conserved o) (resume o)
unfolding resume
resume-Conserved o v =
    elim (Bool-cases (eq_ℤ o.scan minus_one && not (eq_ℤ o.firstunsort minus_one))) [
      | inl q ↦ rw q (
          resume_at-Conserved o.firstunsort o v.unsorted
            (eq_of_test o.scan minus_one (ground arith)) (ground arith))
      | inr q ↦ rw q (v, λ p. refl, refl)
    ]

pred_pos : (n : ℕ) → pos (suc n) -ℤ pos 1 ≡ pos n
unfolding ◌-ℤ◌
pred_pos n = ground arith

-- An index of the list, once the front has gone.
abbrev shifted : ℤ → ℤ
shifted z = if leb_ℤ z (pos 0) then z else z -ℤ pos 1

shifted-suc : (n : ℕ) → shifted (pos (suc n)) ≡ pos n
shifted-suc n = let q : leb_ℤ (pos (suc n)) (pos 0) ≡ false = ground arith in rw (q, pred_pos n)

shifted-InRange : (z : ℤ) (k : ℕ) → InRange z (suc k) → InRange (shifted z) k
shifted-InRange (pos zero) k h = omega arith
shifted-InRange (pos (suc n)) k h = rw (shifted-suc n) (omega arith)
shifted-InRange (negsuc zero) k h = tt
shifted-InRange (negsuc (suc n)) k h = absurd h

held-shifted :
    (p : Entry → Bool) (z : ℤ) (e : Entry) → held_count p (shifted z) e ≡ held_count p z e
held-shifted p (pos zero) e = refl
held-shifted p (pos (suc n)) e = rw (shifted-suc n)
held-shifted p (negsuc zero) e = refl
held-shifted p (negsuc (suc n)) e =
    let q : leb_ℤ (negsuc (suc n)) (pos 0) ≡ true = ground arith in rw q

Unsorted-shifted :
    (f : ℤ) (x : Slot) (l : List Slot)
    → Unsorted f (x ∷ l)
    → Unsorted (if ltb_ℤ f (pos 0) then f else f -ℤ pos 1) l
unfolding ◌-ℤ◌
Unsorted-shifted (pos zero) x l u = tt
Unsorted-shifted (pos (suc n)) x l u =
    let q : ltb_ℤ (pos (suc n)) (pos 0) ≡ false = ground arith in rw (q, pred_pos n) u
Unsorted-shifted (negsuc zero) x l u = tt
Unsorted-shifted (negsuc (suc n)) x l u = absurd u

-- Moving the front of the backing list to the sorted queue.
pub promote-Conserved :
    (l : List Slot) (o : Own) → o.backing ≡ l → IsValid o → Conserved o (promote l o)
unfolding promote count
promote-Conserved [] o e v = (v, λ p. refl, refl)
promote-Conserved (x ∷ l) o e v = (
  record {
    scan_in = shifted-InRange o.scan (length l) (rw e at v.scan_in);
    unsorted = Unsorted-shifted o.firstunsort x l (rw e at v.unsorted);
  },
  λ p. rw e (omega (arith, count-insert p x.0 o.hwqueue, held-shifted p o.scan o.held)),
  refl,
)

elem_at-Returns {ℓ} :
    {A : Type ℓ} (l : List A) (n : ℕ) → n < length l → Returns (λ _. Unit {0}) (elem_at l n)
unfolding elem_at
elem_at-Returns [] n h = absurd (omega arith)
elem_at-Returns (x ∷ l) zero h = tt
elem_at-Returns (x ∷ l) (suc n) h = elem_at-Returns l n (omega arith)

pub threshold :
    (n : ℕ)
    → 8 ≤ n
    → n < 2 ^ 31
    → (to_u64 (pos n +ℤ pos 1 -ℤ pos 8) ≡ n - 7) × (pos n -ℤ pos 8 ≡ pos (n - 8))
unfolding to_u64 ◌-ℤ◌ ◌+ℤ◌
threshold n h k = ground arith

-- With 8 priorities or more the test reads inside the sorted queue.
pub wants_front-Returns :
    (n : ℕ) (hw : List Entry) (l : List Slot)
    → 8 ≤ n
    → n < 2 ^ 31
    → Returns (λ _. Unit {0}) (wants_front (pos n) hw l)
unfolding wants_front at_int
wants_front-Returns n hw [] h k = tt
wants_front-Returns n hw (x ∷ l) h k =
    let (size, index) = threshold n h k in
    elim (Bool-cases (leb (length hw) (n - 7))) [
      | inl q ↦ rw (size, q) tt
      | inr q ↦
          rw (size, q, index, at_int)
            (Ends->>= _ (λ _. Unit {0}) (λ _. Unit {0}) (elem_at hw (n - 8)) _
              (elem_at-Returns hw (n - 8) (ground arith)) (λ _ _. tt))
    ]
