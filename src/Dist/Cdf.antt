-- ===== src/Dist/Cdf.antt =====
-- What makes a table a cumulative distribution, and that the five tables are.
use homa_nic.Prelude.{
  ◌≤◌, ◌<◌, ◌≡◌, refl, Bool, true, false, ◌&&◌, ltb, leb, ◌==◌, List, [], ◌∷◌, arith,
}
use homa_nic.Dist.Point.{CdfPoint, one}
use homa_nic.Dist.W1.{w1}
use homa_nic.Dist.W2.{w2}
use homa_nic.Dist.W3.{w3}
use homa_nic.Dist.W4.{w4}
use homa_nic.Dist.W5.{w5}

-- Behind `p` the lengths grow, the fractions do not fall, and the last fraction is 1.0.
abbrev pub Follows : CdfPoint → List CdfPoint → Type 0
Follows p [] = p.fraction ≡ one
Follows p (q ∷ qs) = (p.length < q.length) × (p.fraction ≤ q.fraction) × Follows q qs

abbrev pub IsCdf : List CdfPoint → Type 0
IsCdf [] = ⊥
IsCdf (p ∷ ps) = Follows p ps

-- The same as a test.
follows : CdfPoint → List CdfPoint → Bool
follows p [] = p.fraction == one
follows p (q ∷ qs) = ltb p.length q.length && (leb p.fraction q.fraction && follows q qs)

is_cdf : List CdfPoint → Bool
is_cdf [] = false
is_cdf (p ∷ ps) = follows p ps

follows-Follows : (p : CdfPoint) (ps : List CdfPoint) → follows p ps ≡ true → Follows p ps
unfolding follows
follows-Follows p [] h = ground arith
follows-Follows p (q ∷ qs) h = (ground arith, ground arith, follows-Follows q qs (ground arith))

is_cdf-IsCdf : (ps : List CdfPoint) → is_cdf ps ≡ true → IsCdf ps
unfolding is_cdf
is_cdf-IsCdf [] h = cc
is_cdf-IsCdf (p ∷ ps) h = follows-Follows p ps h

tests_pass :
    (is_cdf w1 ≡ true)
    × (is_cdf w2 ≡ true)
    × (is_cdf w3 ≡ true)
    × (is_cdf w4 ≡ true)
    × (is_cdf w5 ≡ true)
unfolding is_cdf follows w1 w2 w3 w4 w5
tests_pass = (refl, refl, refl, refl, refl)

-- Each built-in table is a cumulative distribution.
pub tables-IsCdf : IsCdf w1 × IsCdf w2 × IsCdf w3 × IsCdf w4 × IsCdf w5
tables-IsCdf = (
  is_cdf-IsCdf w1 tests_pass.0,
  is_cdf-IsCdf w2 tests_pass.1,
  is_cdf-IsCdf w3 tests_pass.2,
  is_cdf-IsCdf w4 tests_pass.3,
  is_cdf-IsCdf w5 tests_pass.4,
)
