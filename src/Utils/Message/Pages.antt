-- ===== src/Utils/Message/Pages.antt =====
-- The pages of a message, checked one after the other.
use homa_nic.Prelude.{
  ℕ, zero, suc, ◌+◌, ◌-◌, ◌*◌, ◌/◌, ◌%◌, ◌^◌, ◌≤◌, ◌<◌, ◌≡◌, ◌∙◌, refl, sym, ap, true, Option, none,
  some, List, [], ◌∷◌, ◌++◌, map,
}
use homa_nic.Prelude.{arith, ltb, if◌then◌else◌, Bool-cases, inl, inr}
use homa_nic.Prelude.Int.{ℤ, pos, eq_ℤ, ◌+ℤ◌}
use homa_nic.Utils.Seed.{Bad}
use homa_nic.Utils.Message.{
  page_size, sub_u64, int_rounds, page_ints, check_ints, check_pages, check_message,
}

-- The first value that is not the seed and its index.
abbrev pub first_bad : ℤ → ℕ → List ℤ → Option Bad
first_bad seed k [] = none
first_bad seed k (x ∷ xs) =
    if eq_ℤ x (seed +ℤ pos k)
    then first_bad seed (suc k) xs
    else some (record { index = k; expected = seed +ℤ pos k; got = x })

abbrev pub ints_from : ℕ → ℕ → List ℕ
ints_from a zero = []
ints_from a (suc n) = a ∷ ints_from (a + 4) n

-- The addresses of the `int`s of a message that fills its pages in order, of `len` bytes of which
-- the first `skip` are left out; `n` pages are left from the page `i` on.
abbrev pub message_ints : (ℕ → ℕ) → ℕ → ℕ → ℕ → ℕ → List ℕ
message_ints offsets zero i len skip = []
message_ints offsets (suc n) i len skip =
    ints_from (offsets i + skip) (((if ltb page_size len then page_size else len) - skip + 3) / 4)
    ++ message_ints offsets n (suc i) (len - page_size) 0

page_ints_lem :
    (len skip : ℕ)
    → len ≤ 1000000
    → skip ≤ len
    → skip ≤ page_size
    → page_ints len skip ≡ ((if ltb page_size len then page_size else len) - skip + 3) / 4
page_ints_lem len skip h k l =
    rounds (if ltb page_size len then page_size else len) (ground arith) (ground arith)
  where
    rounds :
        (bytes : ℕ)
        → bytes ≤ page_size
        → skip ≤ bytes
        → int_rounds ((sub_u64 bytes skip + 4 - 1) % 2 ^ 64 / 4) ≡ (bytes - skip + 3) / 4
    rounds bytes m n =
        let sum : (sub_u64 bytes skip + 4 - 1) % 2 ^ 64 / 4 ≡ (bytes - skip + 3) / 4 =
          omega arith in
        let few : ltb ((bytes - skip + 3) / 4 % 2 ^ 32) (2 ^ 31) ≡ true = ground arith in
        rw (sum, few) (omega arith)

-- The check of the `int`s that follow, after one page.
resume : ℤ → List ℤ → Option Bad × ℕ → Option Bad
resume seed rest (none, count) = first_bad seed count rest
resume seed rest (some b, count) = some b

module _ (word : ℕ → ℤ) (offsets : ℕ → ℕ) (seed : ℤ) where
  check_ints-first_bad :
      (n a count : ℕ) (rest : List ℤ)
      → first_bad seed count (map word (ints_from a n) ++ rest)
        ≡ resume seed rest (check_ints word offsets seed n a count)
  unfolding check_ints resume
  check_ints-first_bad zero a count rest = refl
  check_ints-first_bad (suc n) a count rest =
      elim (Bool-cases (eq_ℤ (word a) (seed +ℤ pos count))) [
        | inl p ↦ rw (check_ints, p) (check_ints-first_bad n (a + 4) (suc count) rest)
        | inr p ↦ rw (check_ints, p) refl
      ]

  map-append : (xs ys : List ℕ) → map word (xs ++ ys) ≡ map word xs ++ map word ys
  map-append [] ys = refl
  map-append (x ∷ xs) ys = ap (λ t. word x ∷ t) (map-append xs ys)

  -- One page, before the pages that follow it.
  page_round :
      (n i len skip count : ℕ) (rest : List ℤ)
      → ((count : ℕ)
          → check_pages word offsets seed n (suc i) (sub_u64 len page_size) 0 count
            ≡ first_bad seed count rest)
      → check_pages word offsets seed (suc n) i len skip count
        ≡ resume seed rest
            (check_ints word offsets seed (page_ints len skip) (offsets i + skip) count)
  unfolding check_pages resume
  page_round n i len skip count rest h =
      by_page (check_ints word offsets seed (page_ints len skip) (offsets i + skip) count)
    where
      by_page :
          (r : Option Bad × ℕ)
          → elim r.0 [
            | none ↦ check_pages word offsets seed n (suc i) (sub_u64 len page_size) 0 r.1
            | some b ↦ some b
          ]
            ≡ resume seed rest r
      by_page (none, c) = h c
      by_page (some b, c) = refl

  page_joins :
      (n i len skip count : ℕ)
      → len ≤ 1000000
      → skip ≤ len
      → skip ≤ page_size
      → ((count : ℕ)
          → check_pages word offsets seed n (suc i) (sub_u64 len page_size) 0 count
            ≡ first_bad seed count (map word (message_ints offsets n (suc i) (len - page_size) 0)))
      → check_pages word offsets seed (suc n) i len skip count
        ≡ first_bad seed count (map word (message_ints offsets (suc n) i len skip))
  page_joins n i len skip count b c d h =
      let ints : ℕ = ((if ltb page_size len then page_size else len) - skip + 3) / 4 in
      let later : List ℕ = message_ints offsets n (suc i) (len - page_size) 0 in
      page_round n i len skip count (map word later) h
      ∙ rw (page_ints_lem len skip b c d)
          (sym (check_ints-first_bad ints (offsets i + skip) count (map word later)))
      ∙ ap (first_bad seed count) (sym (map-append (ints_from (offsets i + skip) ints) later))

  check_pages-first_bad :
      (n i len skip count : ℕ)
      → (n - 1) * page_size < len
      → len ≤ 1000000
      → skip ≤ len
      → skip ≤ page_size
      → check_pages word offsets seed n i len skip count
        ≡ first_bad seed count (map word (message_ints offsets n i len skip))
  unfolding check_pages
  check_pages-first_bad zero i len skip count a b c d = refl
  check_pages-first_bad (suc zero) i len skip count a b c d =
      page_joins 0 i len skip count b c d (λ k. refl)
  check_pages-first_bad (suc (suc n)) i len skip count a b c d =
      let exact : sub_u64 len page_size ≡ len - page_size = omega (arith, a, b) in
      page_joins (suc n) i len skip count b c d (λ k. rw exact (
        check_pages-first_bad (suc n) (suc i) (len - page_size) 0 k (omega (arith, a))
          (omega (arith, b)) (omega arith) (omega arith)))

-- For a message of at most 1000000 bytes in no more pages than it needs, of which no more than the
-- first page is skipped, check_message returns the first `int` as the seed, and reports the first
-- `int` of the message, in the order of its pages, that is not the seed and its index.
pub check_message_lem :
    (word : ℕ → ℤ) (offsets : ℕ → ℕ) (num_bpages len skip : ℕ)
    → (num_bpages - 1) * page_size < len
    → len ≤ 1000000
    → skip ≤ len
    → skip ≤ page_size
    → let seed = word (offsets 0 + skip) in
      check_message word offsets num_bpages len skip
      ≡ (seed, first_bad seed 0 (map word (message_ints offsets num_bpages 0 len skip)))
unfolding check_message
check_message_lem word offsets n len skip a b c d =
    let seed : ℤ = word (offsets 0 + skip) in
    ap (λ r. (seed, r)) (check_pages-first_bad word offsets seed n 0 len skip 0 a b c d)
