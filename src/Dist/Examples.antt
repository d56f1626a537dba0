-- ===== src/Dist/Examples.antt =====
-- The distribution theorems at concrete inputs, and tests.
use homa_nic.Prelude.{
  ℕ, ◌+◌, ◌*◌, ◌≡◌, ◌≤◌, refl, Bool, false, inl, inr, List, [], ◌∷◌, some, arith, Returns, ok,
  ◌>>=◌, ◌^◌, ◌-◌,
}
use homa_nic.Prelude.Int.{ℤ, pos, negsuc, to_i32, to_u32}
use Prim.Native.String.{String}
use homa_nic.Dist.Point.{CdfPoint, pt, one}
use homa_nic.Dist.Generator.{
  Settings, construct, no_limit, reduce, keeps, back, next_length, drawn_length, sample,
  dist_msg_overhead,
}
use homa_nic.Dist.Construct.{GoodPoints, construct-GoodPoints}
use homa_nic.Dist.Draw.{draw_chunks, FitsIn, construct-draws}
use homa_nic.Dist.Sample.{Quantile, IsLength, sample-Quantile}
use homa_nic.Dist.Overhead.{Covers, overhead-Covers}

-- A text that is no number, as `strtol` reads it.
abbrev no_number : String → ℤ × Bool
no_number s = (pos 0, false)

-- What model/qsim.cc passes.
abbrev qsim_settings : Settings
qsim_settings = record { max_length = 1000000; min_bucket_frac = 0; ratio_num = 12; ratio_den = 10 }

abbrev three_points : List CdfPoint
three_points = pt 64 2000 ∷ pt 640 4000 ∷ pt 900 one ∷ []

merges_buckets :
    reduce
      (record { max_length = 800; min_bucket_frac = 2500; ratio_num = 200; ratio_den = 10 })
      three_points
      []
    ≡ ok (pt 64 2000 ∷ pt 800 one ∷ [])
unfolding reduce keeps back next_length
merges_buckets = refl

draws_second : sample 3000 three_points ≡ ok (pos 640)
unfolding sample drawn_length to_i32 to_u32
draws_second = refl

construct-GoodPoints_example :
    Returns
      (λ g. GoodPoints (no_limit qsim_settings).max_length g.dist_points)
      (construct no_number "w4" qsim_settings)
unfolding to_i32
construct-GoodPoints_example =
    construct-GoodPoints no_number "w4" qsim_settings (inr (inr (inr (inl refl)))) refl

construct-draws_example :
    Returns
      (FitsIn (no_limit qsim_settings).max_length)
      (construct no_number "w3" qsim_settings >>= draw_chunks 3000)
unfolding to_i32
construct-draws_example =
    construct-draws no_number "w3" qsim_settings 3000 (inr (inr (inl refl))) refl (omega arith)

sample-Quantile_example :
    Returns (IsLength (λ v. Quantile 3000 v three_points × (v ≤ 900))) (sample 3000 three_points)
sample-Quantile_example =
    sample-Quantile 3000 900 three_points (omega arith) (omega arith) (omega arith)

overhead-Covers_example :
    (k : ℕ) × (g : ℕ) × (dist_msg_overhead (pos 100000) (pos 1500) ≡ some (pos (k * 110 + g * 95)))
    × Covers 100000 1432 k
    × Covers 30000 10000 g
overhead-Covers_example = overhead-Covers 100000 1500 (omega arith)

-- A number that names one length: -5 comes back as -5, whatever `size_t` makes of it.
minus_five : sample 3000 (pt (2 ^ 64 - 5) one ∷ []) ≡ ok (negsuc 4)
unfolding sample drawn_length to_i32 to_u32
minus_five = refl
