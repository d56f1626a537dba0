-- ===== src/Dist/Sample.antt =====
-- `operator()` of `dist_point_gen` draws a length by its cumulative distribution.
use homa_nic.Prelude.{ℕ, ◌≤◌, ◌<◌, ◌≡◌, ◌↔◌, true, leb}
use homa_nic.Prelude.{List, [], ◌∷◌, All, All-map, arith, Bool-cases, inl, inr}
use homa_nic.Prelude.{Returns, Ends-map, Ends, Ends->>=, Never, Fault, ◌^◌}
use homa_nic.Prelude.Int.{ℤ, pos, to_i32_same}
use homa_nic.Dist.Point.{CdfPoint, one}
use homa_nic.Dist.Cdf.{Follows}
use homa_nic.Dist.Generator.{drawn_length, sample}
use homa_nic.Dist.Construct.{GoodPoints}

-- The length that is drawn is at most that of a point exactly when the random fraction is.
abbrev pub Quantile : ℕ → ℕ → List CdfPoint → Type 0
Quantile u v = All λ q. (v ≤ q.length) ↔ (u ≤ q.fraction)

pub above :
    (p : CdfPoint) (ps : List CdfPoint)
    → Follows p ps
    → All (λ q. (p.length < q.length) × (p.fraction ≤ q.fraction)) ps
above p [] f = tt
above p (q ∷ qs) f =
    ((f.0, f.1), All-map _ _ qs (λ x h. (omega arith, omega arith)) (above q qs f.2))

sample_from :
    (u m : ℕ) (p : CdfPoint) (ps : List CdfPoint)
    → Follows p ps
    → All (λ q. q.length ≤ m) (p ∷ ps)
    → u ≤ one
    → Returns (λ v. Quantile u v (p ∷ ps) × (p.length ≤ v) × (v ≤ m)) (drawn_length u (p ∷ ps))
unfolding drawn_length
sample_from u m p [] f b h =
    let q : leb u p.fraction ≡ true = ground arith in
    rw q ((((λ _. omega arith), (λ _. omega arith)), tt), omega arith, b.0)
sample_from u m p (q ∷ qs) f b h = elim (Bool-cases (leb u p.fraction)) [
  | inl e ↦
      let low : u ≤ p.fraction = ground arith in
      rw e (
        (
          ((λ _. low), (λ _. omega arith)),
          All-map _ _ (q ∷ qs) (λ x k. ((λ _. omega arith), (λ _. omega arith)))
              (above p (q ∷ qs) f),
        ),
        omega arith,
        b.0,
      )
  | inr e ↦
      let high : p.fraction < u = ground arith in
      rw e (
        Ends-map _ _ _ (drawn_length u (q ∷ qs))
          (λ v k.
            ((((λ x. absurd (omega arith)), (λ x. absurd (omega arith))), k.0), omega arith, k.2))
          (sample_from u m q qs f.2 b.1 h))
]

pub drawn_length-Quantile :
    (u m : ℕ) (ps : List CdfPoint)
    → GoodPoints m ps
    → u ≤ one
    → Returns (λ v. Quantile u v ps × (v ≤ m)) (drawn_length u ps)
drawn_length-Quantile u m [] g h = absurd g.0
drawn_length-Quantile u m (p ∷ ps) g h =
    Ends-map _ _ _ (drawn_length u (p ∷ ps)) (λ v k. (k.0, k.2)) (sample_from u m p ps g.0 g.1 h)

-- An `int` that is a length.
abbrev pub IsLength : (ℕ → Type 0) → ℤ → Type 0
IsLength P z = (v : ℕ) × (z ≡ pos v) × P v

-- What the loop finds is returned as it is when it fits an `int`.
pub sample-IsLength :
    (F : Fault → Type 0) (P : ℕ → Type 0) (u : ℕ) (ps : List CdfPoint)
    → Ends F (λ v. P v × (v < 2 ^ 31)) (drawn_length u ps)
    → Ends F (IsLength P) (sample u ps)
unfolding sample
sample-IsLength F P u ps h =
    Ends->>= F (λ v. P v × (v < 2 ^ 31)) (IsLength P) (drawn_length u ps) _ h
      (λ v k. (v, to_i32_same v k.1, k.0))

-- At a random fraction up to 1.0, and with points whose limit fits an `int`, the generator returns
-- a length, within the limit of its points. It is the least one that fits: it is at most the length
-- of a point exactly when the random fraction is at most the fraction of that point.
pub sample-Quantile :
    (u m : ℕ) (ps : List CdfPoint)
    → GoodPoints m ps
    → m < 2 ^ 31
    → u ≤ one
    → Returns (IsLength (λ v. Quantile u v ps × (v ≤ m))) (sample u ps)
sample-Quantile u m ps g small h =
    sample-IsLength Never (λ v. Quantile u v ps × (v ≤ m)) u ps
      (Ends-map Never _ _ (drawn_length u ps) (λ v k. (k, omega (arith, k.1)))
        (drawn_length-Quantile u m ps g h))
