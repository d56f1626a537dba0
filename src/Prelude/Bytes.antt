-- ===== src/Prelude/Bytes.antt =====
-- Integers as bytes in memory, from the lowest, and fields that stand one behind the other.
use mathlib.Core.Path.{◌≡◌, refl, ap}
use mathlib.Core.List.{List, [], ◌∷◌, ◌++◌}
use Prim.Native.Nat.{ℕ, zero, suc, ◌+◌, ◌-◌, ◌≤◌, ◌*◌, ◌/◌, ◌%◌, ◌^◌, ◌<◌}
use native.Mathlib.Omega.{arith}
use homa_nic.Prelude.Lists.{length, take, drop}

abbrev pub to_bytes : ℕ → ℕ → List ℕ
to_bytes zero n = []
to_bytes (suc w) n = n % 256 ∷ to_bytes w (n / 256)

abbrev pub from_bytes : List ℕ → ℕ
from_bytes [] = 0
from_bytes (b ∷ bs) = b + 256 * from_bytes bs

pub length-to_bytes : (w n : ℕ) → length (to_bytes w n) ≡ w
length-to_bytes zero n = refl
length-to_bytes (suc w) n = ap suc (length-to_bytes w (n / 256))

pub take-append : (w : ℕ) (xs ys : List ℕ) → length xs ≡ w → take w (xs ++ ys) ≡ xs
take-append zero [] ys h = refl
take-append zero (x ∷ xs) ys h = absurd (omega arith)
take-append (suc w) [] ys h = absurd (omega arith)
take-append (suc w) (x ∷ xs) ys h = ap (λ t. x ∷ t) (take-append w xs ys (omega arith))

pub drop-append : (w : ℕ) (xs ys : List ℕ) → length xs ≡ w → drop w (xs ++ ys) ≡ ys
drop-append zero [] ys h = refl
drop-append zero (x ∷ xs) ys h = absurd (omega arith)
drop-append (suc w) [] ys h = absurd (omega arith)
drop-append (suc w) (x ∷ xs) ys h = drop-append w xs ys (omega arith)

pub take_bytes : (w n : ℕ) (ys : List ℕ) → take w (to_bytes w n ++ ys) ≡ to_bytes w n
take_bytes w n ys = take-append w (to_bytes w n) ys (length-to_bytes w n)

pub drop_bytes : (w n : ℕ) (ys : List ℕ) → drop w (to_bytes w n ++ ys) ≡ ys
drop_bytes w n ys = drop-append w (to_bytes w n) ys (length-to_bytes w n)

smaller : (w n : ℕ) → n < 256 ^ suc w → n / 256 < 256 ^ w
smaller w n h = omega arith

pub from_to_bytes : (w n : ℕ) → n < 256 ^ w → from_bytes (to_bytes w n) ≡ n
from_to_bytes zero n h = omega arith
from_to_bytes (suc w) n h = omega (arith, from_to_bytes w (n / 256) (smaller w n h))

-- Bytes that are 0.
abbrev pub zero_bytes : ℕ → List ℕ
zero_bytes zero = []
zero_bytes (suc n) = 0 ∷ zero_bytes n

pub take_append_drop : (w : ℕ) (xs : List ℕ) → take w xs ++ drop w xs ≡ xs
take_append_drop zero xs = refl
take_append_drop (suc w) [] = refl
take_append_drop (suc w) (x ∷ xs) = ap (λ t. x ∷ t) (take_append_drop w xs)

pub length-take : (w : ℕ) (xs : List ℕ) → w ≤ length xs → length (take w xs) ≡ w
length-take zero xs h = refl
length-take (suc w) [] h = absurd (omega arith)
length-take (suc w) (x ∷ xs) h = ap suc (length-take w xs (omega arith))

pub length-drop : (w : ℕ) (xs : List ℕ) → length (drop w xs) ≡ length xs - w
length-drop zero xs = omega arith
length-drop (suc w) [] = omega arith
length-drop (suc w) (x ∷ xs) = omega (arith, length-drop w xs)

pub append_assoc : (xs ys zs : List ℕ) → (xs ++ ys) ++ zs ≡ xs ++ (ys ++ zs)
append_assoc [] ys zs = refl
append_assoc (x ∷ xs) ys zs = ap (λ t. x ∷ t) (append_assoc xs ys zs)

pub take_all : (w : ℕ) (xs : List ℕ) → length xs ≡ w → take w xs ≡ xs
take_all zero [] h = refl
take_all zero (x ∷ xs) h = absurd (omega arith)
take_all (suc w) [] h = refl
take_all (suc w) (x ∷ xs) h = ap (λ t. x ∷ t) (take_all w xs (omega arith))
