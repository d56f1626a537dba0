-- ===== src/Dist/Generator.antt =====
-- model/dist.cc: `dist_point_gen`, its constructor and the functions that read its points.
use homa_nic.Prelude.{
  ℕ, ◌+◌, ◌-◌, ◌*◌, ◌/◌, ◌^◌, Bool, true, leb, ltb, ◌==◌, if◌then◌else◌, not, ◌&&◌,
}
use homa_nic.Prelude.{
  List, [], ◌∷◌, ◌++◌, map, Result, ok, err, ◌>>=◌, out_of_bounds, aborted, Option, some, none,
}
use homa_nic.Prelude.Int.{ℤ, pos, ◌+ℤ◌, ◌-ℤ◌, ◌*ℤ◌, div_ℤ, leb_ℤ, eq_ℤ, to_u64, to_i32}
use Prim.Native.String.{String}
use text.Mathlib.Text.{◌==◌ as str_eq}
use homa_nic.Dist.Point.{CdfPoint, pt, one}
use homa_nic.Dist.W1.{w1}
use homa_nic.Dist.W2.{w2}
use homa_nic.Dist.W3.{w3}
use homa_nic.Dist.W4.{w4}
use homa_nic.Dist.W5.{w5}

-- `dist_point_gen`. The mean is in units of 10^-16.
pub record Generator : Type 0 where
  pub dist_points : List CdfPoint
  pub dist_mean : ℤ

-- What the constructor takes besides the name: `max_size_ratio` is the quotient of two numbers.
pub record Settings : Type 0 where
  pub max_length : ℕ
  pub min_bucket_frac : ℕ
  pub ratio_num : ℕ
  pub ratio_den : ℕ

-- `dist_points.back()`.
unfoldable pub back : CdfPoint → List CdfPoint → CdfPoint
back p [] = p
back p (q ∷ qs) = back q qs

-- `p[1].length`, read behind `p`.
unfoldable pub next_length : List CdfPoint → Result ℕ
next_length [] = err out_of_bounds
next_length (q ∷ qs) = ok q.length

-- Does `p` start a new bucket? `p[1]` is read only when the first two tests fail.
unfoldable pub keeps : Settings → List CdfPoint → CdfPoint → List CdfPoint → Result Bool
keeps s [] p ps = ok true
keeps s (o ∷ out) p ps =
    if leb (s.min_bucket_frac + (back o out).fraction) p.fraction
    then ok true
    else (next_length ps >>= λ n. ok (ltb (s.ratio_num * (back o out).length) (n * s.ratio_den)))

-- The loop that reduces the set of points; `out` is `dist_points` so far.
unfoldable pub reduce : Settings → List CdfPoint → List CdfPoint → Result (List CdfPoint)
reduce s [] out = err out_of_bounds
reduce s (p ∷ ps) out =
    if leb s.max_length p.length
    then ok (out ++ pt s.max_length one ∷ [])
    else if leb one p.fraction
    then ok (out ++ pt p.length one ∷ [])
    else (keeps s out p ps >>= λ k. reduce s ps (if k then out ++ p ∷ [] else out))

-- The mean of `std::ceil(length/64.0)`.
unfoldable pub mean_from : ℕ → List CdfPoint → ℕ
mean_from prev [] = 0
mean_from prev (p ∷ ps) = (p.length + 63) / 64 * (p.fraction - prev) + mean_from p.fraction ps

-- The table that a name stands for; any other name aborts.
unfoldable pub table : String → Result (List CdfPoint)
table dist =
    if str_eq dist "w1"
    then ok w1
    else if str_eq dist "w2"
    then ok w2
    else if str_eq dist "w3"
    then ok w3
    else if str_eq dist "w4"
    then ok w4
    else if str_eq dist "w5"
    then ok w5
    else err aborted

-- `max_length` 0 stands for the greatest `size_t`.
abbrev pub no_limit : Settings → Settings
no_limit s = if s.max_length == 0 then record s { max_length = 2 ^ 64 - 1 } else s

-- A number names the distribution of that one length; its mean is the length itself, where that of
-- a table is in chunks of 64 bytes. `strtol(dist, &end, 10)` is the C library's: it returns the
-- number, a `long` that the code keeps as an `int`, and whether `end` is the end.
module _ (strtol : String → ℤ × Bool) where
  unfoldable pub construct : String → Settings → Result Generator
  construct dist s =
      let (number, at_end) = strtol dist in
      let length : ℤ = to_i32 number in
      if not (eq_ℤ length (pos 0)) && at_end
      then ok (record { dist_points = pt (to_u64 length) one ∷ []; dist_mean = length *ℤ pos one })
      else (table dist >>= λ points. reduce (no_limit s) points [] >>= λ out.
          ok (record { dist_points = out; dist_mean = pos (mean_from 0 out) }))

-- The loop of `operator()`: the first point at or above the random fraction.
unfoldable pub drawn_length : ℕ → List CdfPoint → Result ℕ
drawn_length u [] = err aborted
drawn_length u (p ∷ ps) = if leb u p.fraction then ok p.length else drawn_length u ps

-- `operator()`, at the random fraction that it draws. The `size_t` is returned as an `int`.
unfoldable pub sample : ℕ → List CdfPoint → Result ℤ
sample u ps = drawn_length u ps >>= λ v. ok (to_i32 (pos v))

-- `dist_msg_overhead`.
unfoldable pub grants : ℤ → Option ℤ
grants length =
    if leb_ℤ length (pos 70000)
    then some (pos 0)
    else div_ℤ (length -ℤ pos 70000 +ℤ pos 10000 -ℤ pos 1) (pos 10000)

unfoldable pub packets : ℤ → ℤ → Option ℤ
packets length mtu =
    let packet_data : ℤ = mtu -ℤ (pos 20 +ℤ pos 48) in
    div_ℤ (length +ℤ packet_data -ℤ pos 1) packet_data

-- 8 bytes of preamble, 18 of Ethernet, 20 of IP, 16 of CRC and gap.
abbrev pub common : ℤ
common = pos 62

unfoldable pub dist_msg_overhead : ℤ → ℤ → Option ℤ
dist_msg_overhead length mtu = elim (packets length mtu) [
  | none ↦ none
  | some k ↦ elim (grants length) [
    | none ↦ none
    | some g ↦ some (k *ℤ (common +ℤ pos 48) +ℤ g *ℤ (common +ℤ pos 33))
  ]
]

-- `values` and `cdf_fractions`.
unfoldable pub values : Generator → List ℕ
values g = map (λ p. p.length) g.dist_points

unfoldable pub cdf_fractions : Generator → List ℕ
cdf_fractions g = map (λ p. p.fraction) g.dist_points
