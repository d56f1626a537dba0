-- ===== src/Dist/Point.antt =====
-- model/dist.h: one point of a distribution.
use homa_nic.Prelude.{ℕ, ◌^◌}

-- `cdf_point`: messages of up to `length` bytes make up `fraction` of all.
pub record CdfPoint : Type 0 where
  pub length : ℕ
  pub fraction : ℕ

-- The constructor of `cdf_point`.
abbrev pub pt : ℕ → ℕ → CdfPoint
pt l f = record { length = l; fraction = f }

-- The fraction 1.0.
abbrev pub one : ℕ
one = 10 ^ 16
