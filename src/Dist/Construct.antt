-- ===== src/Dist/Construct.antt =====
-- The constructor of `dist_point_gen` makes a cumulative distribution of each built-in table.
use homa_nic.Prelude.{ℕ, ◌+◌, ◌≤◌, ◌<◌, ◌≡◌, ◌⊎◌, refl, Bool, true, false, leb, not, ◌&&◌}
use homa_nic.Prelude.{
  List, [], ◌∷◌, ◌++◌, All, All-append, All-map, arith, if◌then◌else◌, Bool-cases, inl, inr,
}
use homa_nic.Prelude.{Returns, Ends->>=}
use homa_nic.Prelude.Int.{ℤ, pos, eq_ℤ, to_i32}
use Prim.Native.String.{String}
use homa_nic.Dist.Point.{CdfPoint, pt, one}
use homa_nic.Dist.Cdf.{Follows, IsCdf, tables-IsCdf}
use homa_nic.Dist.Generator.{Settings, no_limit, keeps, reduce, next_length, back, table, construct}

abbrev Before : CdfPoint → CdfPoint → Type 0
Before o p = (o.length < p.length) × (o.fraction ≤ p.fraction)

-- The points rise, and the last one comes before `p`.
abbrev ChainTo : List CdfPoint → CdfPoint → Type 0
ChainTo [] p = Unit {0}
ChainTo (o ∷ []) p = Before o p
ChainTo (o ∷ o' ∷ out) p = Before o o' × ChainTo (o' ∷ out) p

abbrev Bounded : ℕ → CdfPoint → Type 0
Bounded m o = (o.length < m) × (o.fraction ≤ one)

retarget :
    (m : ℕ) (out : List CdfPoint) (p q : CdfPoint)
    → ((o : CdfPoint) → Bounded m o → Before o p → Before o q)
    → All (Bounded m) out
    → ChainTo out p
    → ChainTo out q
retarget m [] p q f b c = tt
retarget m (o ∷ []) p q f b c = f o b.0 c
retarget m (o ∷ o' ∷ out) p q f b c = (c.0, retarget m (o' ∷ out) p q f b.1 c.1)

ChainTo-snoc :
    (out : List CdfPoint) (p q : CdfPoint) → ChainTo out p → Before p q → ChainTo (out ++ p ∷ []) q
ChainTo-snoc [] p q c h = h
ChainTo-snoc (o ∷ []) p q c h = (c, h)
ChainTo-snoc (o ∷ o' ∷ out) p q c h = (c.0, ChainTo-snoc (o' ∷ out) p q c.1 h)

ChainTo-IsCdf :
    (out : List CdfPoint) (p : CdfPoint) → ChainTo out p → p.fraction ≡ one → IsCdf (out ++ p ∷ [])
ChainTo-IsCdf [] p c h = h
ChainTo-IsCdf (o ∷ []) p c h = (c.0, c.1, h)
ChainTo-IsCdf (o ∷ o' ∷ out) p c h = (c.0.0, c.0.1, ChainTo-IsCdf (o' ∷ out) p c.1 h)

-- What the constructor promises of its points.
abbrev pub GoodPoints : ℕ → List CdfPoint → Type 0
GoodPoints m out = IsCdf out × All (λ q. q.length ≤ m) out

finish :
    (m l : ℕ) (out : List CdfPoint) (p : CdfPoint)
    → All (Bounded m) out
    → ChainTo out p
    → l ≤ m
    → (p.length ≤ l) ⊎ (l ≡ m)
    → GoodPoints m (out ++ pt l one ∷ [])
finish m l out p b c h e = (
  ChainTo-IsCdf out (pt l one) (retarget m out p (pt l one) (λ o x y. omega arith) b c) refl,
  All-append _ out (pt l one ∷ []) (All-map _ _ out (λ o x. omega arith) b) (h, tt),
)

next_length-Returns :
    (p : CdfPoint) (ps : List CdfPoint)
    → Follows p ps
    → p.fraction < one
    → Returns (λ _. Unit {0}) (next_length ps)
unfolding next_length
next_length-Returns p [] f h = absurd (omega arith)
next_length-Returns p (q ∷ qs) f h = tt

keeps_Returns :
    (s : Settings) (out : List CdfPoint) (p : CdfPoint) (ps : List CdfPoint)
    → Follows p ps
    → p.fraction < one
    → Returns (λ _. Unit {0}) (keeps s out p ps)
unfolding keeps
keeps_Returns s [] p ps f h = tt
keeps_Returns s (o ∷ out) p ps f h =
    elim (Bool-cases (leb (s.min_bucket_frac + (back o out).fraction) p.fraction)) [
      | inl q ↦ rw q tt
      | inr q ↦ rw q (
          Ends->>= _ (λ _. Unit {0}) _ (next_length ps) _ (next_length-Returns p ps f h)
            (λ n _. tt))
    ]

-- One round of the loop, before the rounds that follow it.
reduce_round :
    (s : Settings) (p : CdfPoint) (ps out : List CdfPoint)
    → Follows p ps
    → All (Bounded s.max_length) out
    → ChainTo out p
    → (p.length < s.max_length
        → p.fraction < one
        → (k : Bool)
        → Returns (GoodPoints s.max_length) (reduce s ps (if k then out ++ p ∷ [] else out)))
    → Returns (GoodPoints s.max_length) (reduce s (p ∷ ps) out)
unfolding reduce
reduce_round s p ps out f b c rest = elim (Bool-cases (leb s.max_length p.length)) [
  | inl q ↦ rw q (finish s.max_length s.max_length out p b c (omega arith) (inr refl))
  | inr q ↦ elim (Bool-cases (leb one p.fraction)) [
    | inl r ↦ rw (q, r) (finish s.max_length p.length out p b c (ground arith) (inl (omega arith)))
    | inr r ↦
        rw (q, r)
          (Ends->>= _ _ (GoodPoints s.max_length) (keeps s out p ps) _
            (keeps_Returns s out p ps f (ground arith))
            (λ k _. rest (ground arith) (ground arith) k))
  ]
]

reduce-GoodPoints :
    (s : Settings) (p : CdfPoint) (ps out : List CdfPoint)
    → Follows p ps
    → All (Bounded s.max_length) out
    → ChainTo out p
    → Returns (GoodPoints s.max_length) (reduce s (p ∷ ps) out)
reduce-GoodPoints s p [] out f b c = reduce_round s p [] out f b c (λ _ h _. absurd (omega arith))
reduce-GoodPoints s p (q ∷ qs) out f b c =
    let next : Before p q = (f.0, f.1) in
    reduce_round s p (q ∷ qs) out f b c (λ h k. elim [
      | true ↦
          reduce-GoodPoints s q qs (out ++ p ∷ []) f.2
            (All-append _ out (p ∷ []) b ((h, omega arith), tt)) (ChainTo-snoc out p q c next)
      | false ↦
          reduce-GoodPoints s q qs out f.2 b
            (retarget s.max_length out p q (λ o _ x. omega arith) b c)
    ])

pub reduce_table :
    (s : Settings) (t : List CdfPoint) → IsCdf t → Returns (GoodPoints s.max_length) (reduce s t [])
reduce_table s [] h = absurd h
reduce_table s (p ∷ ps) h = reduce-GoodPoints s p ps [] h tt tt

-- The names that the constructor knows.
abbrev pub IsBuiltin : String → Type 0
IsBuiltin dist = (dist ≡ "w1") ⊎ (dist ≡ "w2") ⊎ (dist ≡ "w3") ⊎ (dist ≡ "w4") ⊎ (dist ≡ "w5")

pub table-IsCdf : (dist : String) → IsBuiltin dist → Returns IsCdf (table dist)
unfolding table
table-IsCdf dist (inl e) = rw e tables-IsCdf.0
table-IsCdf dist (inr (inl e)) = rw e tables-IsCdf.1
table-IsCdf dist (inr (inr (inl e))) = rw e tables-IsCdf.2
table-IsCdf dist (inr (inr (inr (inl e)))) = rw e tables-IsCdf.3
table-IsCdf dist (inr (inr (inr (inr e)))) = rw e tables-IsCdf.4

-- For a built-in name, which `strtol` does not read as a number, and any settings, the constructor
-- reads inside the table of that name, also where it looks one point ahead. It makes points whose
-- lengths rise and stay within `max_length` (0 for no limit), whose fractions do not fall and
-- whose last fraction is 1.0.
pub construct-GoodPoints :
    (strtol : String → ℤ × Bool) (dist : String) (s : Settings)
    → IsBuiltin dist
    → (not (eq_ℤ (to_i32 (strtol dist).0) (pos 0)) && (strtol dist).1) ≡ false
    → Returns (λ g. GoodPoints (no_limit s).max_length g.dist_points) (construct strtol dist s)
unfolding construct
construct-GoodPoints strtol dist s w h = rw h (
    Ends->>= _ IsCdf _ (table dist) _ (table-IsCdf dist w) (λ t c.
      Ends->>= _ (GoodPoints (no_limit s).max_length) _ (reduce (no_limit s) t []) _
        (reduce_table (no_limit s) t c) (λ out g. g)))
