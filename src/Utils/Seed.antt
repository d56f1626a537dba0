-- ===== src/Utils/Seed.antt =====
-- app/lib/test_utils.cc: `seed_buffer` and `check_buffer`. A buffer is the list of the `int`s that
-- its allocation holds whole. A length is below 2 ^ 33, so that the `int` num_ints holds its value.
use homa_nic.Prelude.{
  ℕ, zero, suc, ◌+◌, ◌-◌, ◌/◌, ◌≤◌, ◌<◌, ◌≡◌, ◌⊎◌, inl, inr, refl, ap, true, false, Option, none,
  some, List, [], ◌∷◌, ◌++◌,
}
use homa_nic.Prelude.{
  arith, leb, length, get_elem?, drop, take, if◌then◌else◌, Bool-cases, Result, ok, err,
  out_of_bounds, ◌>>=◌,
}
use homa_nic.Prelude.Int.{ℤ, pos, eq_ℤ, ◌+ℤ◌, eq_of_parts}

-- `(length + sizeof(int) - 1)/sizeof(int)`.
abbrev pub num_ints : ℕ → ℕ
num_ints length = (length + 4 - 1) / 4

-- The loop of `seed_buffer` from `i` on, with `n` rounds left.
unfoldable pub seed_from : ℕ → ℕ → ℤ → List ℤ → Result (List ℤ)
seed_from zero i seed buffer = ok buffer
seed_from (suc n) i seed [] = err out_of_bounds
seed_from (suc n) i seed (x ∷ buffer) = do
  rest ← seed_from n (suc i) seed buffer
  ok ((seed +ℤ pos i) ∷ rest)

unfoldable pub seed_buffer : ℕ → ℤ → List ℤ → Result (List ℤ)
seed_buffer length seed buffer = seed_from (num_ints length) 0 seed buffer

-- What `check_buffer` complains of: the index, the value expected and the value found.
pub record Bad : Type 0 where
  pub index : ℕ
  pub expected : ℤ
  pub got : ℤ

-- The loop of `check_buffer`. It stops at the first bad value.
unfoldable pub check_from : ℕ → ℕ → ℤ → List ℤ → Result (Option Bad)
check_from zero i seed buffer = ok none
check_from (suc n) i seed [] = err out_of_bounds
check_from (suc n) i seed (x ∷ buffer) =
    let rest = check_from n (suc i) seed buffer in
    if eq_ℤ x (seed +ℤ pos i)
    then rest
    else ok (some (record { index = i; expected = seed +ℤ pos i; got = x }))

-- `int_buffer[0]`.
unfoldable pub first_int : List ℤ → Result ℤ
first_int [] = err out_of_bounds
first_int (x ∷ buffer) = ok x

-- The seed, and the complaint if there is one.
unfoldable pub check_buffer : ℕ → List ℤ → Result (ℤ × Option Bad)
check_buffer length buffer = do
  seed ← first_int buffer
  bad ← check_from (num_ints length) 0 seed buffer
  ok (seed, bad)

-- The data that a seed stands for.
abbrev pub pattern_from : ℕ → ℕ → ℤ → List ℤ
pattern_from zero i seed = []
pattern_from (suc n) i seed = (seed +ℤ pos i) ∷ pattern_from n (suc i) seed

seed_from-pattern :
    (n i : ℕ) (seed : ℤ) (buffer : List ℤ)
    → n ≤ length buffer
    → seed_from n i seed buffer ≡ ok (pattern_from n i seed ++ drop n buffer)
unfolding seed_from
seed_from-pattern zero i seed buffer h = refl
seed_from-pattern (suc n) i seed [] h = absurd (omega arith)
seed_from-pattern (suc n) i seed (x ∷ buffer) h =
    rw (seed_from-pattern n (suc i) seed buffer (omega arith)) refl

seed_from_outside :
    (n i : ℕ) (seed : ℤ) (buffer : List ℤ)
    → length buffer < n
    → seed_from n i seed buffer ≡ err out_of_bounds
unfolding seed_from
seed_from_outside zero i seed buffer h = absurd (omega arith)
seed_from_outside (suc n) i seed [] h = refl
seed_from_outside (suc n) i seed (x ∷ buffer) h =
    rw (seed_from_outside n (suc i) seed buffer (omega arith)) refl

-- `seed_buffer` writes the pattern of the seed over the first ints of the buffer, as many as the
-- length rounded up to whole ints, and leaves the others; a buffer with fewer ints is overrun.
pub seed_buffer_cases :
    (n : ℕ) (seed : ℤ) (buffer : List ℤ)
    → ((num_ints n ≤ length buffer)
        × (seed_buffer n seed buffer
            ≡ ok (pattern_from (num_ints n) 0 seed ++ drop (num_ints n) buffer)))
      ⊎ ((length buffer < num_ints n) × (seed_buffer n seed buffer ≡ err out_of_bounds))
unfolding seed_buffer
seed_buffer_cases n seed buffer = elim (Bool-cases (leb (num_ints n) (length buffer))) [
  | inl p ↦ inl (ground arith, seed_from-pattern (num_ints n) 0 seed buffer (ground arith))
  | inr p ↦ inr (ground arith, seed_from_outside (num_ints n) 0 seed buffer (ground arith))
]

eq_ℤ_refl : (a : ℤ) → eq_ℤ a a ≡ true
eq_ℤ_refl a = ground arith

check_from-pattern :
    (n i : ℕ) (seed : ℤ) (rest : List ℤ)
    → check_from n i seed (pattern_from n i seed ++ rest) ≡ ok none
unfolding check_from
check_from-pattern zero i seed rest = refl
check_from-pattern (suc n) i seed rest =
    rw (eq_ℤ_refl (seed +ℤ pos i)) (check_from-pattern n (suc i) seed rest)

plus_zero : (a : ℤ) → a +ℤ pos 0 ≡ a
unfolding ◌+ℤ◌
plus_zero a = ground arith

first_int-pattern :
    (n : ℕ) (seed : ℤ) (rest : List ℤ) → 0 < n → first_int (pattern_from n 0 seed ++ rest) ≡ ok seed
unfolding first_int
first_int-pattern zero seed rest h = absurd (omega arith)
first_int-pattern (suc n) seed rest h = ap ok (plus_zero seed)

-- What `seed_buffer` writes in a buffer that is large enough passes `check_buffer` for the same
-- length, which finds the seed, when the length is not 0.
pub check_buffer-seed_buffer :
    (n : ℕ) (seed : ℤ) (buffer : List ℤ)
    → 0 < n
    → num_ints n ≤ length buffer
    → (seed_buffer n seed buffer >>= check_buffer n) ≡ ok (seed, none)
unfolding seed_buffer check_buffer
check_buffer-seed_buffer n seed buffer h k =
    rw
      (
        seed_from-pattern (num_ints n) 0 seed buffer k,
        first_int-pattern (num_ints n) seed (drop (num_ints n) buffer) (omega arith),
        check_from-pattern (num_ints n) 0 seed (drop (num_ints n) buffer),
      )
      refl

-- What a check says of the ints before the first bad one.
abbrev Checked : ℕ → ℕ → ℤ → List ℤ → Result (Option Bad) → Type 0
Checked n i seed buffer r =
    ((r ≡ ok none) × (take n buffer ≡ pattern_from n i seed))
    ⊎ ((k : ℕ) × (x : ℤ) × (k < n)
        × (r ≡ ok (some (record { index = i + k; expected = seed +ℤ pos (i + k); got = x })))
        × (take k buffer ≡ pattern_from k i seed)
        × (get_elem? buffer k ≡ some x)
        × (eq_ℤ x (seed +ℤ pos (i + k)) ≡ false))

-- The check of one more int that is as expected.
Checked-next :
    (n i : ℕ) (seed x : ℤ) (buffer : List ℤ) (r : Result (Option Bad))
    → x ≡ seed +ℤ pos i
    → Checked n (suc i) seed buffer r
    → Checked (suc n) i seed (x ∷ buffer) r
Checked-next n i seed x buffer r e (inl (q, t)) = inl (q, cc)
Checked-next n i seed x buffer r e (inr (k, y, l, q, t, g, b)) =
    let shift : suc i + k ≡ i + suc k = omega arith in
    inr (suc k, y, omega arith, rw (← shift) q, cc, g, rw (← shift) b)

check_from-Checked :
    (n i : ℕ) (seed : ℤ) (buffer : List ℤ)
    → n ≤ length buffer
    → Checked n i seed buffer (check_from n i seed buffer)
unfolding check_from
check_from-Checked zero i seed buffer h = inl (refl, refl)
check_from-Checked (suc n) i seed [] h = absurd (omega arith)
check_from-Checked (suc n) i seed (x ∷ buffer) h = elim (Bool-cases (eq_ℤ x (seed +ℤ pos i))) [
  | inl p ↦ rw p (
      Checked-next n i seed x buffer _ (eq_of_parts x (seed +ℤ pos i) (ground arith))
        (check_from-Checked n (suc i) seed buffer (omega arith)))
  | inr p ↦
      let at : i ≡ i + 0 = omega arith in
      inr (0, x, omega arith, rw (p, ← at) refl, refl, refl, rw (← at) p)
]

-- `check_buffer` on a buffer that holds the ints of the length returns its first int as the seed.
-- It reports nothing, and the ints are the pattern of that seed; or it reports the first index at
-- which they are not, with the value that the pattern has there and the value that is there.
pub check_buffer_cases :
    (n : ℕ) (seed : ℤ) (buffer : List ℤ)
    → num_ints n ≤ length (seed ∷ buffer)
    → ((check_buffer n (seed ∷ buffer) ≡ ok (seed, none))
        × (take (num_ints n) (seed ∷ buffer) ≡ pattern_from (num_ints n) 0 seed))
      ⊎ ((k : ℕ) × (x : ℤ) × (k < num_ints n)
          × (check_buffer n (seed ∷ buffer)
              ≡ ok (seed, some (record { index = k; expected = seed +ℤ pos k; got = x })))
          × (take k (seed ∷ buffer) ≡ pattern_from k 0 seed)
          × (get_elem? (seed ∷ buffer) k ≡ some x)
          × (eq_ℤ x (seed +ℤ pos k) ≡ false))
unfolding check_buffer first_int
check_buffer_cases n seed buffer h =
    elim (check_from-Checked (num_ints n) 0 seed (seed ∷ buffer) h) [
      | inl (q, t) ↦ inl (rw q refl, t)
      | inr (k, x, l, q, t, g, b) ↦
          let at : 0 + k ≡ k = omega arith in inr (k, x, l, rw (q, at) refl, t, g, rw (← at) b)
    ]
