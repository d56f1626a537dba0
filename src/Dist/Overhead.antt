-- ===== src/Dist/Overhead.antt =====
-- `dist_msg_overhead`: the header bytes of a message.
use homa_nic.Prelude.{ℕ, suc, ◌+◌, ◌-◌, ◌*◌, ◌/◌, ◌≤◌, ◌<◌, ◌≡◌, ◌∙◌, arith, some}
use native.Mathlib.Nat.{div-add-mod, mod-lt}
use homa_nic.Prelude.{Bool-cases, inl, inr, ap}
use homa_nic.Prelude.Int.{pos, leb_ℤ, ◌+ℤ◌, ◌-ℤ◌, ◌*ℤ◌, div_ℤ, int_laws}
use homa_nic.Dist.Generator.{dist_msg_overhead, packets, grants}

-- The least number of parts of size `b` that hold `a`.
abbrev pub Covers : ℕ → ℕ → ℕ → Type 0
Covers a b k = (a ≤ k * b) × (k * b < a + b)

Covers-quotient : (a d : ℕ) → Covers a (suc d) ((a + d) / suc d)
Covers-quotient a d = omega (arith, div-add-mod (a + d) (suc d), mod-lt (a + d) {m = suc d})

data_eq : (d : ℕ) → pos (d + 69) -ℤ (pos 20 +ℤ pos 48) ≡ pos (suc d)
data_eq d = omega int_laws

round_up : (l d : ℕ) → pos l +ℤ pos (suc d) -ℤ pos 1 ≡ pos (l + d)
round_up l d = omega int_laws

packets_eq : (l d : ℕ) → packets (pos l) (pos (d + 69)) ≡ some (pos ((l + d) / suc d))
unfolding packets div_ℤ
packets_eq l d = rw (data_eq d, round_up l d)

beyond : (l : ℕ) → 70000 < l → pos l -ℤ pos 70000 +ℤ pos 10000 -ℤ pos 1 ≡ pos (l - 70000 + 9999)
beyond l h = omega int_laws

grants_eq : (l : ℕ) → grants (pos l) ≡ some (pos ((l - 70000 + 9999) / 10000))
unfolding grants div_ℤ
grants_eq l = elim (Bool-cases (leb_ℤ (pos l) (pos 70000))) [
  | inl q ↦ rw q (ap (λ (n : ℕ). some (pos n)) (ground arith))
  | inr q ↦ rw (q, beyond l (ground arith))
]

sum_eq :
    (k g : ℕ) → pos k *ℤ (pos 62 +ℤ pos 48) +ℤ pos g *ℤ (pos 62 +ℤ pos 33) ≡ pos (k * 110 + g * 95)
unfolding ◌*ℤ◌ ◌+ℤ◌
sum_eq k g = ground arith

overhead_eq :
    (l d : ℕ)
    → dist_msg_overhead (pos l) (pos (d + 69))
      ≡ some (pos ((l + d) / suc d * 110 + (l - 70000 + 9999) / 10000 * 95))
unfolding dist_msg_overhead
overhead_eq l d =
    rw (packets_eq l d, grants_eq l, dist_msg_overhead)
      (ap some (sum_eq ((l + d) / suc d) ((l - 70000 + 9999) / 10000)))

-- A message of `l` bytes at an MTU above 68 costs 110 header bytes for each packet and 95 for each
-- grant. The packets are the fewest that hold `l` bytes at `mtu` - 68 each, and the grants the
-- fewest that cover what is beyond 70000 bytes at 10000 each.
pub overhead-Covers :
    (l mtu : ℕ)
    → 68 < mtu
    → (k : ℕ) × (g : ℕ) × (dist_msg_overhead (pos l) (pos mtu) ≡ some (pos (k * 110 + g * 95)))
      × Covers l (mtu - 68) k
      × Covers (l - 70000) 10000 g
overhead-Covers l mtu h =
    let d : ℕ = mtu - 69 in
    let e : mtu ≡ d + 69 = omega arith in
    let e' : mtu - 68 ≡ suc d = omega arith in
    (
      (l + d) / suc d,
      (l - 70000 + 9999) / 10000,
      ap (λ (m : ℕ). dist_msg_overhead (pos l) (pos m)) e ∙ overhead_eq l d,
      rw e' (Covers-quotient l d),
      Covers-quotient (l - 70000) 9999,
    )
