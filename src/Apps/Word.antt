-- ===== src/Apps/Word.antt =====
-- The metadata word of a message, `(size << 12) | retoff` in 32 bits.
use homa_nic.Prelude.{ℕ, zero, suc, ◌+◌, ◌*◌, ◌/◌, ◌%◌, ◌^◌, ◌≤◌, ◌<◌, ◌≡◌, ◌∙◌, ap}
use homa_nic.Prelude.{arith}
use Prim.Native.Nat.{bit_or, bit_or-bitwise, digits, max}

unfoldable pub metadata_word : ℕ → ℕ → ℕ
metadata_word size retoff = bit_or (size * 2 ^ 12 % 2 ^ 32) retoff

power : (k : ℕ) → 2 ^ suc k ≡ 2 * 2 ^ k
power k = omega arith

-- Where one number has zeros in the digits that the other one has, `or` is the sum.
digits-or : (n k x a b : ℕ) → a ≡ x * 2 ^ k → a ≤ n → b < 2 ^ k → digits (λ c. c) max n a b ≡ a + b
digits-or zero k x a b e h l = let none : a ≡ 0 = omega arith in rw none (omega arith)
digits-or (suc n) k x zero b e h l = omega arith
digits-or (suc n) zero x (suc a) b e h l =
    let low : b ≡ 0 = omega arith in
    let rest =
      digits-or n 0 (suc a / 2) (suc a / 2) (b / 2) (omega arith) (omega arith) (omega arith) in
    rw (rest, low) (omega arith)
digits-or (suc n) (suc k) x (suc a) b e h l =
    let double : x * 2 ^ suc k ≡ 2 * (x * 2 ^ k) = omega (arith, ap (λ p. x * p) (power k)) in
    let even : suc a % 2 ≡ 0 = omega arith in
    let rest = digits-or n k x (suc a / 2) (b / 2) (omega arith) (omega arith) (omega arith) in
    rw (rest, even) (omega arith)

-- The word of a message whose size fits in 20 bits and whose offset fits in 12 fits in 32 bits and
-- holds both.
pub metadata_word-parts :
    (size retoff : ℕ)
    → size < 2 ^ 20
    → retoff < 2 ^ 12
    → (metadata_word size retoff < 2 ^ 32)
      × (metadata_word size retoff / 2 ^ 12 ≡ size)
      × (metadata_word size retoff % 2 ^ 12 ≡ retoff)
unfolding metadata_word
metadata_word-parts size retoff h k =
    let sum : bit_or (size * 2 ^ 12 % 2 ^ 32) retoff ≡ size * 2 ^ 12 + retoff =
      (λ i. bit_or-bitwise (size * 2 ^ 12 % 2 ^ 32) retoff i)
      ∙ digits-or (size * 2 ^ 12 % 2 ^ 32) 12 size (size * 2 ^ 12 % 2 ^ 32) retoff (omega arith)
          (omega arith) k
      ∙ omega arith in
    rw sum (omega arith, omega arith, omega arith)
