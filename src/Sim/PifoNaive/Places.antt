-- ===== src/Sim/PifoNaive/Places.antt =====
-- Entries put in and taken out of the backing list of `PIFO_Naive` at an index.
use homa_nic.Prelude.{ℕ, zero, suc, ◌+◌, ◌≤◌, ◌<◌, ◌≡◌, ◌≢◌, refl, ap, Bool, List, [], ◌∷◌, map}
use homa_nic.Prelude.{length, get_elem?, some, arith, if◌then◌else◌, Returns, Ends-map}
use homa_nic.Sim.Entry.{Entry}
use homa_nic.Sim.Multiset.{count}
use homa_nic.Sim.PifoNaive.{Slot, elem_at, insert_at, erase_at}

abbrev pub entries : List Slot → List Entry
entries = map λ x. x.0

abbrev pub flags : List Slot → List Bool
flags = map λ x. x.1

-- One for an entry that satisfies the test.
abbrev pub bit : (Entry → Bool) → Entry → ℕ
bit p e = if p e then 1 else 0

pub count-insert_at :
    (p : Entry → Bool) (n : ℕ) (x : Slot) (l : List Slot)
    → count p (entries (insert_at n x l)) ≡ bit p x.0 + count p (entries l)
unfolding count insert_at
count-insert_at p n x [] = refl
count-insert_at p zero x (y ∷ l) = refl
count-insert_at p (suc n) x (y ∷ l) = omega (arith, count-insert_at p n x l)

pub length-insert_at :
    (n : ℕ) (x : Slot) (l : List Slot) → length (insert_at n x l) ≡ suc (length l)
unfolding insert_at
length-insert_at n x [] = refl
length-insert_at zero x (y ∷ l) = refl
length-insert_at (suc n) x (y ∷ l) = ap suc (length-insert_at n x l)

pub length-erase_at :
    (n : ℕ) (l : List Slot) → n < length l → suc (length (erase_at n l)) ≡ length l
unfolding erase_at
length-erase_at n [] h = absurd (omega arith)
length-erase_at zero (y ∷ l) h = refl
length-erase_at (suc n) (y ∷ l) h = ap suc (length-erase_at n l (omega arith))

-- What stands at `n`, and what is left when it is taken out.
pub elem_at_lem :
    (n : ℕ) (l : List Slot)
    → n < length l
    → Returns
        (λ x.
          (get_elem? (flags l) n ≡ some x.1)
          × ((p : Entry → Bool)
              → bit p x.0 + count p (entries (erase_at n l)) ≡ count p (entries l)))
        (elem_at l n)
unfolding elem_at erase_at count
elem_at_lem n [] h = absurd (omega arith)
elem_at_lem zero (y ∷ l) h = (refl, λ p. refl)
elem_at_lem (suc n) (y ∷ l) h =
    Ends-map _ _ _ (elem_at l n) (λ x k. (k.0, λ p. omega (arith, k.1 p)))
      (elem_at_lem n l (omega arith))

pub length-flags : (l : List Slot) → length (flags l) ≡ length l
length-flags [] = refl
length-flags (x ∷ l) = ap suc (length-flags l)

pub flag-insert_before :
    (n j : ℕ) (x : Slot) (l : List Slot)
    → j < n
    → j < length l
    → get_elem? (flags (insert_at n x l)) j ≡ get_elem? (flags l) j
unfolding insert_at
flag-insert_before n j x [] h k = absurd (omega arith)
flag-insert_before zero j x (y ∷ l) h k = absurd (omega arith)
flag-insert_before (suc n) zero x (y ∷ l) h k = refl
flag-insert_before (suc n) (suc j) x (y ∷ l) h k =
    flag-insert_before n j x l (omega arith) (omega arith)

pub flag-insert_behind :
    (n j : ℕ) (x : Slot) (l : List Slot)
    → n ≤ j
    → j < length l
    → get_elem? (flags (insert_at n x l)) (suc j) ≡ get_elem? (flags l) j
unfolding insert_at
flag-insert_behind n j x [] h k = absurd (omega arith)
flag-insert_behind zero j x (y ∷ l) h k = refl
flag-insert_behind (suc n) zero x (y ∷ l) h k = absurd (omega arith)
flag-insert_behind (suc n) (suc j) x (y ∷ l) h k =
    flag-insert_behind n j x l (omega arith) (omega arith)

pub flag-insert_self :
    (n : ℕ) (x : Slot) (l : List Slot)
    → n ≤ length l
    → get_elem? (flags (insert_at n x l)) n ≡ some x.1
unfolding insert_at
flag-insert_self zero x [] h = refl
flag-insert_self (suc n) x [] h = absurd (omega arith)
flag-insert_self zero x (y ∷ l) h = refl
flag-insert_self (suc n) x (y ∷ l) h = flag-insert_self n x l (omega arith)

-- An exchange at `n` leaves the other flags.
pub flag-exchange :
    (n j : ℕ) (x : Slot) (l : List Slot)
    → j ≢ n
    → n < length l
    → get_elem? (flags (insert_at n x (erase_at n l))) j ≡ get_elem? (flags l) j
unfolding insert_at erase_at
flag-exchange n j x [] d h = absurd (omega arith)
flag-exchange zero zero x (y ∷ l) d h = absurd (d refl)
flag-exchange zero (suc j) x (y ∷ []) d h = refl
flag-exchange zero (suc j) x (y ∷ z ∷ l) d h = refl
flag-exchange (suc n) zero x (y ∷ l) d h = refl
flag-exchange (suc n) (suc j) x (y ∷ l) d h =
    flag-exchange n j x l (λ e. d (ap suc e)) (omega arith)
