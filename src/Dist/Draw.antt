-- ===== src/Dist/Draw.antt =====
-- What model/qsim.cc draws from a `dist_point_gen`: the length of a message in chunks of 64 bytes.
use homa_nic.Prelude.{ℕ, ◌+◌, ◌/◌, ◌≤◌, ◌≡◌, refl, Bool, true, false, leb, not, ◌&&◌, ◌++◌}
use homa_nic.Prelude.{List, [], ◌∷◌, All, All-append, arith, if◌then◌else◌, Bool-cases, inl, inr}
use homa_nic.Prelude.{
  ◌<◌, ◌^◌, ltb, Ends-map, Any, Result, ok, Ends, Returns, Never, Ends->>=, Ends-and, Ends-Any,
  ◌>>=◌,
}
use homa_nic.Prelude.Int.{ℤ, pos, negsuc, ◌-ℤ◌, ◌≤ℤ◌, eq_ℤ, to_i32}
use Prim.Native.String.{String}
use homa_nic.Dist.Point.{CdfPoint, pt, one}
use homa_nic.Dist.Cdf.{IsCdf}
use homa_nic.Dist.Generator.{
  Generator, Settings, no_limit, keeps, reduce, table, construct, drawn_length, sample, mean_from,
}
use homa_nic.Dist.Construct.{GoodPoints, IsBuiltin, table-IsCdf, reduce_table}
use homa_nic.Dist.Sample.{Quantile, IsLength, sample-IsLength, drawn_length-Quantile}
use homa_nic.Dist.W1.{w1}
use homa_nic.Dist.W2.{w2}
use homa_nic.Dist.W3.{w3}
use homa_nic.Dist.W4.{w4}
use homa_nic.Dist.W5.{w5}

-- `std::ceil(wk(gen)/64.0)`, at the random fraction that is drawn.
abbrev pub ceil_chunks : ℤ → ℤ
ceil_chunks (pos v) = pos ((v + 63) / 64)
ceil_chunks (negsuc v) = pos 0 -ℤ pos ((v + 1) / 64)

unfoldable pub draw_chunks : ℕ → Generator → Result ℤ
draw_chunks u g = sample u g.dist_points >>= λ v. ok (ceil_chunks v)

-- No message is empty, and each length fits an `int`.
abbrev pub Filled : List CdfPoint → Type 0
Filled = All (λ q. (1 ≤ q.length) × (q.length < 2 ^ 31))

is_filled : List CdfPoint → Bool
is_filled [] = true
is_filled (p ∷ ps) = leb 1 p.length && ltb p.length (2 ^ 31) && is_filled ps

is_filled-Filled : (ps : List CdfPoint) → is_filled ps ≡ true → Filled ps
unfolding is_filled
is_filled-Filled [] h = tt
is_filled-Filled (p ∷ ps) h = (ground arith, is_filled-Filled ps (ground arith))

table-Filled : (dist : String) → IsBuiltin dist → Returns Filled (table dist)
unfolding table is_filled w1 w2 w3 w4 w5
table-Filled dist (inl e) = rw e (is_filled-Filled w1 refl)
table-Filled dist (inr (inl e)) = rw e (is_filled-Filled w2 refl)
table-Filled dist (inr (inr (inl e))) = rw e (is_filled-Filled w3 refl)
table-Filled dist (inr (inr (inr (inl e)))) = rw e (is_filled-Filled w4 refl)
table-Filled dist (inr (inr (inr (inr e)))) = rw e (is_filled-Filled w5 refl)

kept-Filled :
    (p : CdfPoint) (out : List CdfPoint)
    → (1 ≤ p.length) × (p.length < 2 ^ 31)
    → Filled out
    → (c : Bool) → Filled (if c then out ++ p ∷ [] else out)
kept-Filled p out h k true = All-append _ out (p ∷ []) k (h, tt)
kept-Filled p out h k false = k

reduce-Filled :
    (s : Settings) (ps out : List CdfPoint)
    → 1 ≤ s.max_length
    → Filled ps
    → Filled out
    → Ends Any Filled (reduce s ps out)
unfolding reduce
reduce-Filled s [] out m h k = tt
reduce-Filled s (p ∷ ps) out m h k = elim (Bool-cases (leb s.max_length p.length)) [
  | inl a ↦ rw a (All-append _ out (pt s.max_length one ∷ []) k ((m, ground (arith, h.0.1)), tt))
  | inr a ↦ elim (Bool-cases (leb one p.fraction)) [
    | inl b ↦ rw (a, b) (All-append _ out (pt p.length one ∷ []) k (h.0, tt))
    | inr b ↦
        rw (a, b)
          (Ends->>= Any (λ _. Unit {0}) Filled (keeps s out p ps) _ (Ends-Any _)
            (λ c _.
              reduce-Filled s ps (if c then out ++ p ∷ [] else out) m h.1
                (kept-Filled p out h.0 k c)))
  ]
]

drawn_length-Filled :
    (u : ℕ) (ps : List CdfPoint)
    → Filled ps
    → Ends Any (λ v. (1 ≤ v) × (v < 2 ^ 31)) (drawn_length u ps)
unfolding drawn_length
drawn_length-Filled u [] h = tt
drawn_length-Filled u (p ∷ ps) h = elim (Bool-cases (leb u p.fraction)) [
  | inl a ↦ rw a h.0
  | inr a ↦ rw a (drawn_length-Filled u ps h.1)
]

-- Points of which no message is empty.
abbrev pub Usable : ℕ → List CdfPoint → Type 0
Usable m ps = GoodPoints m ps × Filled ps

reduce-Usable :
    (s : Settings) (t : List CdfPoint)
    → 1 ≤ s.max_length
    → IsCdf t
    → Filled t
    → Returns (Usable s.max_length) (reduce s t [])
reduce-Usable s t m c h =
    Ends-and Never Any (GoodPoints s.max_length) Filled (reduce s t []) (reduce_table s t c)
      (reduce-Filled s t [] m h tt)

-- A number of chunks from 1 on, and at most the chunks of `m` bytes.
abbrev pub FitsIn : ℕ → ℤ → Type 0
FitsIn m c = (pos 1 ≤ℤ c) × (c ≤ℤ pos ((m + 63) / 64))

pub draw_chunks-Returns :
    (m u : ℕ) (g : Generator)
    → Usable m g.dist_points
    → u ≤ one
    → Returns (FitsIn m) (draw_chunks u g)
unfolding draw_chunks
draw_chunks-Returns m u g a h =
    let ps : List CdfPoint = g.dist_points in
    Ends->>= Never (IsLength (λ v. (v ≤ m) × (1 ≤ v))) (FitsIn m) (sample u ps) _
      (sample-IsLength Never (λ v. (v ≤ m) × (1 ≤ v)) u ps
        (Ends-map Never (λ v. (Quantile u v ps × (v ≤ m)) × ((1 ≤ v) × (v < 2 ^ 31))) _
          (drawn_length u ps) (λ v k. ((k.0.1, k.1.0), k.1.1))
          (Ends-and Never Any _ (λ v. (1 ≤ v) × (v < 2 ^ 31)) (drawn_length u ps)
            (drawn_length-Quantile u m ps a.0 h) (drawn_length-Filled u ps a.1))))
      (λ z (v, e, k). rw e (omega (arith, k.0, k.1), omega (arith, k.0, k.1)))

-- The generator that the table of a name gives.
abbrev construct_table : Settings → String → Result Generator
construct_table s dist = table dist >>= λ points. reduce (no_limit s) points [] >>= λ out.
    ok (record { dist_points = out; dist_mean = pos (mean_from 0 out) })

max_length-no_limit : (s : Settings) → 1 ≤ (no_limit s).max_length
max_length-no_limit s = ground arith

construct_table-Usable :
    (s : Settings) (dist : String)
    → IsBuiltin dist
    → Returns (λ g. Usable (no_limit s).max_length g.dist_points) (construct_table s dist)
construct_table-Usable s dist w =
    let z : Settings = no_limit s in
    Ends->>= Never (λ t. IsCdf t × Filled t) _ (table dist) _
      (Ends-and Never Never IsCdf Filled (table dist) (table-IsCdf dist w) (table-Filled dist w))
      (λ t c.
        Ends->>= Never (Usable z.max_length) _ (reduce z t []) _
          (reduce-Usable z t (max_length-no_limit s) c.0 c.1) (λ out a. a))

-- For a built-in name, which `strtol` does not read as a number, the generator has messages to draw.
pub construct-Usable :
    (strtol : String → ℤ × Bool) (dist : String) (s : Settings)
    → IsBuiltin dist
    → (not (eq_ℤ (to_i32 (strtol dist).0) (pos 0)) && (strtol dist).1) ≡ false
    → Returns (λ g. Usable (no_limit s).max_length g.dist_points) (construct strtol dist s)
unfolding construct
construct-Usable strtol dist s w h = rw h (construct_table-Usable s dist w)

-- For a built-in name, which `strtol` does not read as a number, and a random fraction up to 1.0,
-- the constructor makes a generator that then draws a message of at least one chunk and of at most
-- the chunks of `max_length` bytes (0 for no limit).
pub construct-draws :
    (strtol : String → ℤ × Bool) (dist : String) (s : Settings) (u : ℕ)
    → IsBuiltin dist
    → (not (eq_ℤ (to_i32 (strtol dist).0) (pos 0)) && (strtol dist).1) ≡ false
    → u ≤ one
    → Returns (FitsIn (no_limit s).max_length) (construct strtol dist s >>= draw_chunks u)
construct-draws strtol dist s u w h l =
    let z : Settings = no_limit s in
    Ends->>= Never (λ g. Usable z.max_length g.dist_points) _ (construct strtol dist s) _
      (construct-Usable strtol dist s w h) (λ g a. draw_chunks-Returns z.max_length u g a l)
