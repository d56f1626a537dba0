-- ===== src/Utils/Split.antt =====
-- app/lib/test_utils.cc: `split`. A C string is the list of its characters, without the 0 at its end.
use homa_nic.Prelude.{
  ℕ, zero, suc, ◌+◌, ◌≤◌, ◌<◌, ◌≡◌, ◌∙◌, ◌⊎◌, refl, ap, true, false, Option, none, some, List, [],
  ◌∷◌, ◌++◌,
}
use homa_nic.Prelude.{
  Result, ok, err, out_of_bounds, All, arith, length, ◌==◌, if◌then◌else◌, Bool-cases, inl, inr,
}

-- `while (*s == sep) s++`. With the separator 0 the loop passes the 0 at the end of the string.
unfoldable pub skip_seps : ℕ → List ℕ → Result (List ℕ)
skip_seps sep [] = if sep == 0 then err out_of_bounds else ok []
skip_seps sep (c ∷ s) = if c == sep then skip_seps sep s else ok (c ∷ s)

-- `strchr(s, sep)`: what is before the first separator, and the rest from it on, when there is one.
-- The 0 at the end of the string counts.
unfoldable pub strchr : ℕ → List ℕ → List ℕ × Option (List ℕ)
strchr sep [] = ([], if sep == 0 then some [] else none)
strchr sep (c ∷ s) =
    if c == sep then ([], some (c ∷ s)) else (let (before, end) = strchr sep s in (c ∷ before, end))

-- The loop of `split`; `dest` is the vector so far. Without fuel there is no result.
unfoldable pub split_from : ℕ → ℕ → List ℕ → List (List ℕ) → Option (Result (List (List ℕ)))
split_from zero sep s dest = none
split_from (suc fuel) sep s dest = elim (skip_seps sep s) [
  | err e ↦ some (err e)
  | ok t ↦ elim t [
    | [] ↦ some (ok dest)
    | c ∷ s' ↦
        let (before, end) = strchr sep (c ∷ s') in
        elim end [
          | none ↦ some (ok (dest ++ (c ∷ s') ∷ []))
          | some rest ↦ split_from fuel sep rest (dest ++ before ∷ [])
        ]
  ]
]

-- Each round but the last takes at least one character.
unfoldable pub split : List ℕ → ℕ → List (List ℕ) → Option (Result (List (List ℕ)))
split s sep dest = split_from (suc (length s)) sep s dest

-- The character `c` in front of the first piece.
abbrev add_char : ℕ → List (List ℕ) → List (List ℕ)
add_char c [] = (c ∷ []) ∷ []
add_char c (w ∷ ws) = (c ∷ w) ∷ ws

-- The pieces between separators, the empty ones too.
abbrev pub pieces : ℕ → List ℕ → List (List ℕ)
pieces sep [] = [] ∷ []
pieces sep (c ∷ s) = if c == sep then [] ∷ pieces sep s else add_char c (pieces sep s)

abbrev pub not_empty : List (List ℕ) → List (List ℕ)
not_empty [] = []
not_empty ([] ∷ ws) = not_empty ws
not_empty ((c ∷ w) ∷ ws) = (c ∷ w) ∷ not_empty ws

-- What `strchr` finds: no separator, or the first one behind a piece without any.
abbrev Splits : ℕ → List ℕ → List ℕ × Option (List ℕ) → Type 0
Splits sep s r =
    ((r ≡ (s, none)) × (pieces sep s ≡ s ∷ []))
    ⊎ ((w : List ℕ) × (rest : List ℕ) × (r ≡ (w, some (sep ∷ rest)))
        × (pieces sep s ≡ w ∷ pieces sep rest)
        × (length s ≡ length w + suc (length rest)))

strchr-Splits : (sep : ℕ) (s : List ℕ) → (sep == 0) ≡ false → Splits sep s (strchr sep s)
unfolding strchr
strchr-Splits sep [] z = inl (rw z refl, refl)
strchr-Splits sep (c ∷ s) z = elim (Bool-cases (c == sep)) [
  | inl p ↦
      let same : c ≡ sep = ground arith in inr ([], s, rw (p, same) refl, rw p refl, omega arith)
  | inr p ↦ elim (strchr-Splits sep s z) [
    | inl (e, q) ↦ inl (rw (p, e) refl, rw (p, q) refl)
    | inr (w, rest, e, q, l) ↦ inr (c ∷ w, rest, rw (p, e) refl, rw (p, q) refl, omega arith)
  ]
]

-- Skipping separators takes empty pieces.
abbrev Skipped : ℕ → List ℕ → List ℕ → Type 0
Skipped sep s [] = not_empty (pieces sep s) ≡ []
Skipped sep s (c ∷ t) =
    (not_empty (pieces sep s) ≡ not_empty (pieces sep (c ∷ t)))
    × ((c == sep) ≡ false)
    × (length (c ∷ t) ≤ length s)

Skipped-one :
    (sep c : ℕ) (s t : List ℕ) → (c == sep) ≡ true → Skipped sep s t → Skipped sep (c ∷ s) t
Skipped-one sep c s [] p h = rw p h
Skipped-one sep c s (d ∷ t) p (q, b, l) = (rw p q, b, omega arith)

skip_seps-Skipped :
    (sep : ℕ) (s : List ℕ)
    → (sep == 0) ≡ false
    → (t : List ℕ) × (skip_seps sep s ≡ ok t) × Skipped sep s t
unfolding skip_seps
skip_seps-Skipped sep [] z = ([], rw (z, skip_seps) refl, refl)
skip_seps-Skipped sep (c ∷ s) z = elim (Bool-cases (c == sep)) [
  | inl p ↦
      let (t, e, k) = skip_seps-Skipped sep s z in
      (t, rw (p, e, skip_seps) refl, Skipped-one sep c s t p k)
  | inr p ↦ (c ∷ s, rw (p, skip_seps) refl, (refl, p, omega arith))
]

append_nil : (xs : List (List ℕ)) → xs ++ [] ≡ xs
append_nil [] = refl
append_nil (x ∷ xs) = ap (λ t. x ∷ t) (append_nil xs)

append_cons : (xs ys : List (List ℕ)) (y : List ℕ) → (xs ++ y ∷ []) ++ ys ≡ xs ++ (y ∷ ys)
append_cons [] ys y = refl
append_cons (x ∷ xs) ys y = ap (λ t. x ∷ t) (append_cons xs ys y)

strchr_cons :
    (sep c : ℕ) (t : List ℕ)
    → (c == sep) ≡ false
    → strchr sep (c ∷ t) ≡ (c ∷ (strchr sep t).0, (strchr sep t).1)
unfolding strchr
strchr_cons sep c t b = rw b refl

-- One round of the loop, before the rounds that follow it.
split_round :
    (fuel sep : ℕ) (s t : List ℕ) (dest : List (List ℕ))
    → (sep == 0) ≡ false
    → skip_seps sep s ≡ ok t
    → Skipped sep s t
    → length s ≤ fuel
    → ((r : List ℕ) (d : List (List ℕ))
        → length r < fuel
        → split_from fuel sep r d ≡ some (ok (d ++ not_empty (pieces sep r))))
    → split_from (suc fuel) sep s dest ≡ some (ok (dest ++ not_empty (pieces sep s)))
unfolding split_from
split_round fuel sep s [] dest z e h l next = rw (e, h, append_nil dest, split_from) refl
split_round fuel sep s (c ∷ t) dest z e (q, b, k) l next = elim (strchr-Splits sep t z) [
  | inl (f, g) ↦ rw (q, e, strchr_cons sep c t b, f, b, g, split_from) refl
  | inr (w, rest, f, g, n) ↦
      let same : (sep == sep) ≡ true = ground arith in
      let step = next (sep ∷ rest) (dest ++ (c ∷ w) ∷ []) (omega (arith, n, k, l)) in
      let found : strchr sep (c ∷ t) ≡ (c ∷ w, some (sep ∷ rest)) =
        strchr_cons sep c t b ∙ ap (λ (r : List ℕ × Option (List ℕ)). (c ∷ r.0, r.1)) f in
      rw (q, e, split_from, found, b, g)
        (rw found (
          step
          ∙ ap (λ (ws : List (List ℕ)). some (ok ws))
              (rw same (append_cons dest (not_empty (pieces sep rest)) (c ∷ w)))))
]

split_from_lem :
    (fuel sep : ℕ) (s : List ℕ) (dest : List (List ℕ))
    → (sep == 0) ≡ false
    → length s < fuel
    → split_from fuel sep s dest ≡ some (ok (dest ++ not_empty (pieces sep s)))
split_from_lem zero sep s dest z h = absurd (omega arith)
split_from_lem (suc fuel) sep s dest z h =
    let (t, e, k) = skip_seps-Skipped sep s z in
    split_round fuel sep s t dest z e k (omega arith) (λ r d l. split_from_lem fuel sep r d z l)

-- With a separator that is not 0, `split` ends inside the string, and appends to the vector the
-- pieces of the text between separators that are not empty, in their order: to an empty text it
-- appends nothing.
pub split_lem :
    (s : List ℕ) (sep : ℕ) (dest : List (List ℕ))
    → (sep == 0) ≡ false
    → split s sep dest ≡ some (ok (dest ++ not_empty (pieces sep s)))
unfolding split
split_lem s sep dest z = split_from_lem (suc (length s)) sep s dest z (omega arith)

-- The 0 at the end is the only one, so it is what `strchr` finds.
strchr_zero : (s : List ℕ) → All (λ c. (c == 0) ≡ false) s → strchr 0 s ≡ (s, some [])
unfolding strchr
strchr_zero [] h = refl
strchr_zero (c ∷ s) (p, h) = rw (p, strchr_zero s h) refl

-- With the separator 0 `split` reads behind the end of every string.
pub split_overruns :
    (s : List ℕ) (dest : List (List ℕ))
    → All (λ c. (c == 0) ≡ false) s
    → split s 0 dest ≡ some (err out_of_bounds)
unfolding split split_from skip_seps
split_overruns [] dest h = refl
split_overruns (c ∷ s) dest (p, h) =
    rw (split, split_from, skip_seps, p, strchr_zero (c ∷ s) (p, h)) refl
