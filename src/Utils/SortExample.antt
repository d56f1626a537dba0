-- ===== src/Utils/SortExample.antt =====
-- print_dist with a sort that has what it needs of `std::sort`.
use homa_nic.Prelude.{
  ℕ, ◌+◌, ◌-◌, ◌*◌, ◌/◌, ◌≤◌, ◌≡◌, ◌∙◌, refl, Bool, some, List, [], ◌∷◌, arith, leb, length,
  get_elem?, All, All-map, if◌then◌else◌, Bool-cases, inl, inr, ok,
}
use homa_nic.Utils.Percentile.{Distribution, print_dist, count_if, Sorted, IsRank, print_dist_lem}

abbrev insert_time : ℕ → List ℕ → List ℕ
insert_time t [] = t ∷ []
insert_time t (u ∷ us) = if leb t u then t ∷ u ∷ us else u ∷ insert_time t us

abbrev sort_times : List ℕ → List ℕ
sort_times [] = []
sort_times (t ∷ ts) = insert_time t (sort_times ts)

count_if-insert_time :
    (p : ℕ → Bool) (t : ℕ) (us : List ℕ) → count_if p (insert_time t us) ≡ count_if p (t ∷ us)
count_if-insert_time p t [] = refl
count_if-insert_time p t (u ∷ us) = ground (arith, count_if-insert_time p t us)

count_if-sort_times : (p : ℕ → Bool) (ts : List ℕ) → count_if p (sort_times ts) ≡ count_if p ts
count_if-sort_times p [] = refl
count_if-sort_times p (t ∷ ts) =
    count_if-insert_time p t (sort_times ts) ∙ ground (arith, count_if-sort_times p ts)

All-insert_time :
    (a t : ℕ) (us : List ℕ) → a ≤ t → All (λ u. a ≤ u) us → All (λ u. a ≤ u) (insert_time t us)
All-insert_time a t [] h k = (h, tt)
All-insert_time a t (u ∷ us) h k = elim (Bool-cases (leb t u)) [
  | inl p ↦ rw p (h, k)
  | inr p ↦ rw p (k.0, All-insert_time a t us h k.1)
]

Sorted-insert_time : (t : ℕ) (us : List ℕ) → Sorted us → Sorted (insert_time t us)
Sorted-insert_time t [] s = (tt, tt)
Sorted-insert_time t (u ∷ us) s = elim (Bool-cases (leb t u)) [
  | inl p ↦
      let least : t ≤ u = ground arith in
      rw p ((least, All-map (λ x. u ≤ x) (λ x. t ≤ x) us (λ x l. omega arith) s.0), s)
  | inr p ↦ rw p (All-insert_time u t us (ground arith) s.0, Sorted-insert_time t us s.1)
]

Sorted-sort_times : (ts : List ℕ) → Sorted (sort_times ts)
Sorted-sort_times [] = tt
Sorted-sort_times (t ∷ ts) = Sorted-insert_time t (sort_times ts) (Sorted-sort_times ts)

abbrev four_times : List ℕ
four_times = 30 ∷ 10 ∷ 40 ∷ 20 ∷ []

print_dist_lem_example :
    (d : Distribution) × (print_dist sort_times four_times ≡ ok d)
    × IsRank four_times 0 d.min
    × (length d.percentiles ≡ 9)
    × ((j t : ℕ)
        → get_elem? d.percentiles j ≡ some t
        → IsRank four_times ((1 + j) * length four_times / 10) t)
    × IsRank four_times (length four_times - 1) d.max
print_dist_lem_example =
    print_dist_lem sort_times Sorted-sort_times count_if-sort_times four_times (omega arith)
      (omega arith)
