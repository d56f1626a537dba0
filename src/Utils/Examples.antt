-- ===== src/Utils/Examples.antt =====
-- The utilities at concrete inputs, and tests.
use homa_nic.Prelude.{
  ℕ, ◌+◌, ◌-◌, ◌/◌, ◌==◌, if◌then◌else◌, ltb, map, ◌<◌, ◌≡◌, ◌⊎◌, ◌≤◌, refl, false, none, some,
  List, [], ◌∷◌, ◌++◌, arith, drop, take, length, get_elem?, ok, err, out_of_bounds, ◌>>=◌,
}
use homa_nic.Prelude.Int.{ℤ, pos, negsuc, eq_ℤ, ◌+ℤ◌}
use homa_nic.Utils.Seed.{
  num_ints, seed_from, seed_buffer, check_from, first_int, check_buffer, pattern_from,
  seed_buffer_cases, check_buffer-seed_buffer, check_buffer_cases,
}
use homa_nic.Utils.Message.{check_message}
use homa_nic.Utils.Message.Pages.{first_bad, message_ints, check_message_lem}
use homa_nic.Utils.Split.{
  skip_seps, strchr, split_from, split, pieces, not_empty, split_lem, split_overruns,
}

abbrev zeros : List ℤ
zeros = pos 0 ∷ pos 0 ∷ pos 0 ∷ pos 7 ∷ []

-- Nine bytes take three ints.
seeds_three : seed_buffer 9 (negsuc 0) zeros ≡ ok (negsuc 0 ∷ pos 0 ∷ pos 1 ∷ pos 7 ∷ [])
unfolding seed_buffer seed_from ◌+ℤ◌
seeds_three = refl

finds_bad :
    check_buffer 16 (negsuc 0 ∷ pos 0 ∷ pos 1 ∷ pos 7 ∷ [])
    ≡ ok (negsuc 0, some (record { index = 3; expected = pos 2; got = pos 7 }))
unfolding check_buffer check_from first_int ◌+ℤ◌
finds_bad = refl

seed_buffer_cases_example :
    ((num_ints 9 ≤ length zeros)
      × (seed_buffer 9 (pos 5) zeros
          ≡ ok (pattern_from (num_ints 9) 0 (pos 5) ++ drop (num_ints 9) zeros)))
    ⊎ ((length zeros < num_ints 9) × (seed_buffer 9 (pos 5) zeros ≡ err out_of_bounds))
seed_buffer_cases_example = seed_buffer_cases 9 (pos 5) zeros

check_buffer-seed_buffer_example :
    (seed_buffer 9 (pos 5) zeros >>= check_buffer 9) ≡ ok (pos 5, none)
check_buffer-seed_buffer_example =
    check_buffer-seed_buffer 9 (pos 5) zeros (omega arith) (omega arith)

abbrev broken : List ℤ
broken = pos 0 ∷ pos 9 ∷ []

check_buffer_cases_example :
    ((check_buffer 8 broken ≡ ok (pos 0, none))
      × (take (num_ints 8) broken ≡ pattern_from (num_ints 8) 0 (pos 0)))
    ⊎ ((k : ℕ) × (x : ℤ) × (k < num_ints 8)
        × (check_buffer 8 broken
            ≡ ok (pos 0, some (record { index = k; expected = pos 0 +ℤ pos k; got = x })))
        × (take k broken ≡ pattern_from k 0 (pos 0))
        × (get_elem? broken k ≡ some x)
        × (eq_ℤ x (pos 0 +ℤ pos k) ≡ false))
check_buffer_cases_example = check_buffer_cases 8 (pos 0) (pos 9 ∷ []) (omega arith)

-- The text ",ab,,c".
abbrev text : List ℕ
text = 44 ∷ 97 ∷ 98 ∷ 44 ∷ 44 ∷ 99 ∷ []

splits_two : split text 44 [] ≡ some (ok ((97 ∷ 98 ∷ []) ∷ (99 ∷ []) ∷ []))
unfolding split split_from skip_seps strchr
splits_two = refl

split_lem_example : split text 44 [] ≡ some (ok ([] ++ not_empty (pieces 44 text)))
split_lem_example = split_lem text 44 [] refl

split_overruns_example : split (97 ∷ 98 ∷ []) 0 [] ≡ some (err out_of_bounds)
split_overruns_example = split_overruns (97 ∷ 98 ∷ []) [] (refl, (refl, tt))

-- A region whose first page of the message is behind its second one.
abbrev page_at : ℕ → ℕ
page_at i = if i == 0 then 65536 else 0

abbrev region : ℕ → ℤ
region a = if ltb a 65536 then pos (16384 + a / 4) else pos ((a - 65536) / 4)

check_message_lem_example :
    let seed = region (page_at 0 + 0) in
    check_message region page_at 2 70000 0
    ≡ (seed, first_bad seed 0 (map region (message_ints page_at 2 0 70000 0)))
check_message_lem_example =
    check_message_lem region page_at 2 70000 0 (omega arith) (omega arith) (omega arith)
      (omega arith)
