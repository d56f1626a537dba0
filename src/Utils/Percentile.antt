-- ===== src/Utils/Percentile.antt =====
-- app/lib/test_utils.cc: `print_dist`, without the printing and the average, which is a sum of
-- doubles. `std::sort` is a parameter; an array is the list of its `count` elements.
use homa_nic.Prelude.{
  ℕ, zero, suc, ◌+◌, ◌-◌, ◌*◌, ◌/◌, ◌≤◌, ◌<◌, ◌≡◌, ◌∙◌, refl, sym, ap, subst, Bool, true, none,
  some, List, [], ◌∷◌,
}
use homa_nic.Prelude.{
  arith, ltb, leb, length, get_elem?, All, if◌then◌else◌, Result, ok, err, out_of_bounds, overflow,
  guard, ◌>>=◌, ◌>>◌, ◌^◌,
}
use native.Mathlib.Nat.{mul-le-mul_right}

-- What is printed, in cycles: the minimum, the nine percentiles and the maximum.
pub record Distribution : Type 0 where
  pub min : ℕ
  pub percentiles : List ℕ
  pub max : ℕ

-- `times[i]`.
unfoldable pub time_at : List ℕ → ℕ → Result ℕ
time_at times i = elim (get_elem? times i) [ none ↦ err out_of_bounds | some t ↦ ok t ]

-- The loop over the percentiles, from `i` on with `n` rounds left. `i*count` is an `int`.
unfoldable pub percentiles_from : ℕ → ℕ → List ℕ → Result (List ℕ)
percentiles_from zero i times = ok []
percentiles_from (suc n) i times = do
  guard (ltb (i * length times) (2 ^ 31)) overflow
  t ← time_at times (i * length times / 10)
  rest ← percentiles_from n (suc i) times
  ok (t ∷ rest)

unfoldable pub print_dist : (List ℕ → List ℕ) → List ℕ → Result Distribution
print_dist sort times = do
  least ← time_at (sort times) 0
  middle ← percentiles_from 9 1 (sort times)
  most ← time_at (sort times) (length (sort times) - 1)
  ok (record { min = least; percentiles = middle; max = most })

abbrev pub count_if : (ℕ → Bool) → List ℕ → ℕ
count_if p [] = 0
count_if p (t ∷ ts) = if p t then suc (count_if p ts) else count_if p ts

abbrev pub Sorted : List ℕ → Type 0
Sorted [] = Unit
Sorted (t ∷ ts) = All (λ u. t ≤ u) ts × Sorted ts

-- At most `k` of the times are below `t`, and more than `k` are not above it.
abbrev pub IsRank : List ℕ → ℕ → ℕ → Type 0
IsRank times k t = (count_if (λ u. ltb u t) times ≤ k) × (k < count_if (λ u. leb u t) times)

none_below : (t : ℕ) (ts : List ℕ) → All (λ u. t ≤ u) ts → count_if (λ u. ltb u t) ts ≡ 0
none_below t [] h = refl
none_below t (u ∷ ts) h = ground (arith, none_below t ts h.1, h.0)

get-All :
    (t : ℕ) (ts : List ℕ) (k : ℕ) {u : ℕ} → All (λ u. t ≤ u) ts → get_elem? ts k ≡ some u → t ≤ u
get-All t [] k h e = absurd (cc)
get-All t (x ∷ ts) zero {u = u} h e = let same : x ≡ u = cc in subst (λ x. t ≤ x) same h.0
get-All t (x ∷ ts) (suc k) h e = get-All t ts k h.1 e

-- In a sorted list the time at `k` has the rank `k`.
Sorted-IsRank : (ts : List ℕ) (k : ℕ) {t : ℕ} → Sorted ts → get_elem? ts k ≡ some t → IsRank ts k t
Sorted-IsRank [] k s e = absurd (cc)
Sorted-IsRank (x ∷ ts) zero {t = t} s e =
    let same : x ≡ t = cc in
    subst (IsRank (x ∷ ts) 0) same (ground (arith, none_below x ts s.0), ground arith)
Sorted-IsRank (x ∷ ts) (suc k) {t = t} s e =
    let rest = Sorted-IsRank ts k s.1 e in
    let before : x ≤ t = get-All x ts k s.0 e in
    (ground (arith, rest.0), ground (arith, rest.1, before))

time_at-ok :
    (ts : List ℕ) (k : ℕ)
    → k < length ts
    → (t : ℕ) × (get_elem? ts k ≡ some t) × (time_at ts k ≡ ok t)
unfolding time_at
time_at-ok [] k h = absurd (omega arith)
time_at-ok (x ∷ ts) zero h = (x, refl, refl)
time_at-ok (x ∷ ts) (suc k) h =
    let (t, g, q) = time_at-ok ts k (omega arith) in (t, g, rw (time_at, g) refl)

-- The index of a percentile is inside the array.
percentile_inside : (i count : ℕ) → i ≤ 9 → 0 < count → i * count / 10 < count
percentile_inside i count h l = omega (arith, mul-le-mul_right count h)

-- The percentiles from `i` on: the one of this round, and those of the rounds that follow.
next_percentile :
    (i : ℕ) (ts out : List ℕ) (t : ℕ)
    → get_elem? ts (i * length ts / 10) ≡ some t
    → ((j u : ℕ) → get_elem? out j ≡ some u → get_elem? ts ((suc i + j) * length ts / 10) ≡ some u)
    → (j u : ℕ) → get_elem? (t ∷ out) j ≡ some u
    → get_elem? ts ((i + j) * length ts / 10) ≡ some u
next_percentile i ts out t g f zero u e = let here : i + 0 ≡ i = omega arith in rw here (g ∙ e)
next_percentile i ts out t g f (suc j) u e =
    let there : i + suc j ≡ suc i + j = omega arith in rw there (f j u e)

product_fits : (i count : ℕ) → i ≤ 9 → 9 * count < 2 ^ 31 → ltb (i * count) (2 ^ 31) ≡ true
product_fits i count h small = let le = mul-le-mul_right count h in ground (arith, le)

percentiles_from-ok :
    (n i : ℕ) (ts : List ℕ)
    → i + n ≤ 10
    → 0 < length ts
    → 9 * length ts < 2 ^ 31
    → (out : List ℕ) × (percentiles_from n i ts ≡ ok out)
      × (length out ≡ n)
      × ((j : ℕ) (t : ℕ)
          → get_elem? out j ≡ some t
          → get_elem? ts ((i + j) * length ts / 10) ≡ some t)
unfolding percentiles_from
percentiles_from-ok zero i ts h l small = ([], refl, refl, λ j t e. absurd (cc))
percentiles_from-ok (suc n) i ts h l small =
    let fits : ltb (i * length ts) (2 ^ 31) ≡ true =
      product_fits i (length ts) (omega arith) small in
    let (t, g, q) =
      time_at-ok ts (i * length ts / 10) (percentile_inside i (length ts) (omega arith) l) in
    let (out, r, m, f) = percentiles_from-ok n (suc i) ts (omega arith) l small in
    (
      t ∷ out,
      rw (percentiles_from, fits, q, r) refl,
      omega (arith, m),
      next_percentile i ts out t g f,
    )

module _ (sort : List ℕ → List ℕ) (sorts : (ts : List ℕ) → Sorted (sort ts))
    (keeps : (p : ℕ → Bool) (ts : List ℕ) → count_if p (sort ts) ≡ count_if p ts) where
  count_all : (ts : List ℕ) → count_if (λ t. true) ts ≡ length ts
  count_all [] = refl
  count_all (t ∷ ts) = ap suc (count_all ts)

  length-sort : (ts : List ℕ) → length (sort ts) ≡ length ts
  length-sort ts = sym (count_all (sort ts)) ∙ keeps (λ t. true) ts ∙ count_all ts

  rank : (ts : List ℕ) (k t : ℕ) → get_elem? (sort ts) k ≡ some t → IsRank ts k t
  rank ts k t e =
      let (a, b) = Sorted-IsRank (sort ts) k (sorts ts) e in
      (omega (arith, a, keeps (λ u. ltb u t) ts), omega (arith, b, keeps (λ u. leb u t) ts))

  -- For an array that is not empty and of at most 238609294 elements, so that no product of the
  -- loop overflows an `int`, with a sort that sorts and keeps the elements, print_dist stays inside
  -- the array: it prints the time of the lowest rank, nine times of which the i-th has the
  -- rank i * count / 10, and the time of the highest rank.
  pub print_dist_lem :
      (times : List ℕ)
      → 0 < length times
      → 9 * length times < 2 ^ 31
      → (d : Distribution) × (print_dist sort times ≡ ok d)
        × IsRank times 0 d.min
        × (length d.percentiles ≡ 9)
        × ((j t : ℕ)
            → get_elem? d.percentiles j ≡ some t
            → IsRank times ((1 + j) * length times / 10) t)
        × IsRank times (length times - 1) d.max
  unfolding print_dist
  print_dist_lem times h small =
      let n = length-sort times in
      let (a, ga, qa) = time_at-ok (sort times) 0 (omega (arith, n)) in
      let (ps, qp, lp, fp) =
        percentiles_from-ok 9 1 (sort times) (omega arith) (omega (arith, n)) (omega (arith, n)) in
      let (b, gb, qb) = time_at-ok (sort times) (length (sort times) - 1) (omega (arith, n)) in
      (
        record { min = a; percentiles = ps; max = b },
        rw (qa, qp, qb) refl,
        rank times 0 a ga,
        lp,
        (λ j t e.
            subst (λ c. IsRank times ((1 + j) * c / 10) t) n
              (rank times ((1 + j) * length (sort times) / 10) t (fp j t e))),
        subst (λ c. IsRank times (c - 1) b) n (rank times (length (sort times) - 1) b gb),
      )
