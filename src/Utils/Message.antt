-- ===== src/Utils/Message.antt =====
-- app/lib/test_utils.cc: `check_message`. A message lies in pages of 2 ^ 16 bytes of a region; the
-- parameter `word` is the `int` at an address of the region.
pub mod Pages
use homa_nic.Prelude.{
  ℕ, zero, suc, ◌+◌, ◌-◌, ◌*◌, ◌/◌, ◌%◌, ◌^◌, ◌≤◌, ◌<◌, ◌≡◌, ◌∙◌, refl, sym, ap, Bool, true, false,
  Option, none, some, List, [], ◌∷◌, ◌++◌, map,
}
use homa_nic.Prelude.{arith, ltb, length, get_elem?, if◌then◌else◌, Bool-cases, inl, inr}
use homa_nic.Prelude.Int.{ℤ, pos, eq_ℤ, ◌+ℤ◌}
use homa_nic.Utils.Seed.{Bad}

-- `HOMA_BPAGE_SIZE`.
abbrev pub page_size : ℕ
page_size = 2 ^ 16

-- `size_t` subtraction wraps.
abbrev pub sub_u64 : ℕ → ℕ → ℕ
sub_u64 a b = (a + 2 ^ 64 - b) % 2 ^ 64

-- The number of rounds of a loop up to the `int` that a `size_t` is converted to; a negative one
-- has none.
abbrev pub int_rounds : ℕ → ℕ
int_rounds n = let low : ℕ = n % 2 ^ 32 in if ltb low (2 ^ 31) then low else 0

-- The number of `int`s to check in a page, with `len` bytes of the message left.
abbrev pub page_ints : ℕ → ℕ → ℕ
page_ints len skip =
    int_rounds ((sub_u64 (if ltb page_size len then page_size else len) skip + 4 - 1) % 2 ^ 64 / 4)

module _ (word : ℕ → ℤ) (offsets : ℕ → ℕ) (seed : ℤ) where
  -- The inner loop from the address `a` on, with `n` rounds left: what it complains of, and
  -- `count` after it.
  unfoldable pub check_ints : ℕ → ℕ → ℕ → Option Bad × ℕ
  check_ints zero a count = (none, count)
  check_ints (suc n) a count =
      let rest : Option Bad × ℕ = check_ints n (a + 4) (suc count) in
      if eq_ℤ (word a) (seed +ℤ pos count)
      then rest
      else (some (record { index = count; expected = seed +ℤ pos count; got = word a }), count)

  -- The outer loop from the page `i` on, with `n` pages left. A complaint returns at once.
  unfoldable pub check_pages : ℕ → ℕ → ℕ → ℕ → ℕ → Option Bad
  check_pages zero i len skip count = none
  check_pages (suc n) i len skip count =
      let (bad, count') = check_ints (page_ints len skip) (offsets i + skip) count in
      let rest : Option Bad = check_pages n (suc i) (sub_u64 len page_size) 0 count' in
      elim bad [ none ↦ rest | some b ↦ some b ]

-- The seed and the complaint; `num_bpages` pages are in use.
unfoldable pub check_message : (ℕ → ℤ) → (ℕ → ℕ) → ℕ → ℕ → ℕ → ℤ × Option Bad
check_message word offsets num_bpages len skip =
    let seed : ℤ = word (offsets 0 + skip) in
    (seed, check_pages word offsets seed num_bpages 0 len skip 0)
