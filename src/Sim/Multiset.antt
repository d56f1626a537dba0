-- ===== src/Sim/Multiset.antt =====
-- `std::multiset<entry_t, Compare>` as the list of its entries in iteration order.
use homa_nic.Prelude.{ℕ, suc, ◌+◌, ◌≤◌, ◌≡◌, ◌≢◌, refl, sym, Bool, true, false, ◌&&◌}
use homa_nic.Prelude.{
  List, [], ◌∷◌, ◌++◌, arith, length, if◌then◌else◌, Result, ok, err, Bool-cases,
}
use homa_nic.Prelude.{All, All-map, end_iterator, inl, inr, get_elem?, some}
use homa_nic.Sim.Entry.{Entry, less, equiv, equiv-id, less_irrefl, less_trans}

-- `insert` puts the entry behind its equivalents.
unfoldable pub insert : Entry → List Entry → List Entry
insert x [] = x ∷ []
insert x (y ∷ ys) = if less x y then x ∷ y ∷ ys else y ∷ insert x ys

-- `std::distance(begin(), it)` for the iterator `it` that `insert` returns.
unfoldable pub offset : Entry → List Entry → ℕ
offset x [] = 0
offset x (y ∷ ys) = if less x y then 0 else suc (offset x ys)

-- `erase(key)` removes every entry that is equivalent to the key.
unfoldable pub erase : Entry → List Entry → List Entry
erase x [] = []
erase x (y ∷ ys) = if equiv x y then erase x ys else y ∷ erase x ys

-- The number that `erase(key)` returns.
unfoldable pub erase_count : Entry → List Entry → ℕ
erase_count x [] = 0
erase_count x (y ∷ ys) = (if equiv x y then 1 else 0) + erase_count x ys

-- `*begin()`.
unfoldable pub first : List Entry → Result Entry
first [] = err end_iterator
first (x ∷ xs) = ok x

-- `*std::prev(end())` and what is left when it is erased.
unfoldable pub last : Entry → List Entry → Entry
last x [] = x
last x (y ∷ ys) = last y ys

unfoldable pub drop_last : Entry → List Entry → List Entry
drop_last x [] = []
drop_last x (y ∷ ys) = x ∷ drop_last y ys

-- How many entries satisfy a test. Two lists hold the same entries when all counts agree.
unfoldable pub count : (Entry → Bool) → List Entry → ℕ
count p [] = 0
count p (x ∷ xs) = (if p x then 1 else 0) + count p xs

abbrev pub SameEntries : List Entry → List Entry → Type 0
SameEntries xs ys = (p : Entry → Bool) → count p xs ≡ count p ys

-- Each entry comes strictly before all that follow.
abbrev pub Sorted : List Entry → Type 0
Sorted [] = Unit {0}
Sorted (x ∷ xs) = All (λ y. less x y ≡ true) xs × Sorted xs

pub count-append :
    (p : Entry → Bool) (xs ys : List Entry) → count p (xs ++ ys) ≡ count p xs + count p ys
unfolding count
count-append p [] ys = omega arith
count-append p (x ∷ xs) ys = ground (arith, count-append p xs ys)

pub count-insert :
    (p : Entry → Bool) (x : Entry) (xs : List Entry)
    → count p (insert x xs) ≡ (if p x then 1 else 0) + count p xs
unfolding count insert
count-insert p x [] = refl
count-insert p x (y ∷ ys) = ground (arith, count-insert p x ys)

pub length-insert : (x : Entry) (xs : List Entry) → length (insert x xs) ≡ suc (length xs)
unfolding insert
length-insert x [] = refl
length-insert x (y ∷ ys) = ground (arith, length-insert x ys)

pub offset-le-length : (x : Entry) (xs : List Entry) → offset x xs ≤ length xs
unfolding offset
offset-le-length x [] = omega arith
offset-le-length x (y ∷ ys) = ground (arith, offset-le-length x ys)

-- The iterator that `insert` returns points at the entry.
pub get_elem?-insert :
    (x : Entry) (xs : List Entry) → get_elem? (insert x xs) (offset x xs) ≡ some x
unfolding insert offset
get_elem?-insert x [] = refl
get_elem?-insert x (y ∷ ys) = ground (arith, get_elem?-insert x ys)

pub erase_count-count : (x : Entry) (xs : List Entry) → erase_count x xs ≡ count (equiv x) xs
unfolding erase_count count
erase_count-count x [] = refl
erase_count-count x (y ∷ ys) = ground (arith, erase_count-count x ys)

-- What `erase` leaves and what it removes make up the whole.
pub count-erase :
    (p : Entry → Bool) (x : Entry) (xs : List Entry)
    → count p (erase x xs) + count (λ y. p y && equiv x y) xs ≡ count p xs
unfolding count erase
count-erase p x [] = refl
count-erase p x (y ∷ ys) = ground (arith, count-erase p x ys)

pub count-last :
    (p : Entry → Bool) (x : Entry) (xs : List Entry)
    → (if p (last x xs) then 1 else 0) + count p (drop_last x xs) ≡ count p (x ∷ xs)
unfolding count last drop_last
count-last p x [] = refl
count-last p x (y ∷ ys) = ground (arith, count-last p y ys)

pub length-drop_last : (x : Entry) (xs : List Entry) → length (drop_last x xs) ≡ length xs
unfolding drop_last
length-drop_last x [] = refl
length-drop_last x (y ∷ ys) = ground (arith, length-drop_last y ys)

-- A number of entries bounds each count.
pub count-le-length : (p : Entry → Bool) (xs : List Entry) → count p xs ≤ length xs
unfolding count
count-le-length p [] = omega arith
count-le-length p (x ∷ xs) = ground (arith, count-le-length p xs)

pub count_mono :
    (p q : Entry → Bool) (xs : List Entry)
    → ((e : Entry) → p e ≡ true → q e ≡ true)
    → count p xs ≤ count q xs
unfolding count
count_mono p q [] h = omega arith
count_mono p q (x ∷ xs) h = ground (arith, count_mono p q xs h, h x)

pub count_all : (xs : List Entry) → count (λ _. true) xs ≡ length xs
unfolding count
count_all [] = refl
count_all (x ∷ xs) = ground (arith, count_all xs)

pub All-insert :
    (P : Entry → Type 0) (x : Entry) (xs : List Entry) → P x → All P xs → All P (insert x xs)
unfolding insert
All-insert P x [] px h = (px, tt)
All-insert P x (y ∷ ys) px h = elim (Bool-cases (less x y)) [
  | inl e ↦ rw e (px, (h.0, h.1))
  | inr e ↦ rw e (h.0, All-insert P x ys px h.1)
]

-- An entry that no other one is equivalent to keeps the order strict.
pub insert-Sorted :
    (x : Entry) (xs : List Entry)
    → All (λ y. equiv x y ≡ false) xs
    → Sorted xs
    → Sorted (insert x xs)
unfolding insert equiv
insert-Sorted x [] d s = (tt, tt)
insert-Sorted x (y ∷ ys) d s = elim (Bool-cases (less x y)) [
  | inl e ↦ rw e ((e, All-map _ _ ys (λ z h. less_trans x y z e h) s.0), (s.0, s.1))
  | inr e ↦
      rw e (
        All-insert (λ z. less y z ≡ true) x ys (ground (arith, d.0)) s.0,
        insert-Sorted x ys d.1 s.1,
      )
]

-- `erase` takes the head of a strictly sorted list, and nothing else.
erase_none : (x : Entry) (xs : List Entry) → All (λ y. less x y ≡ true) xs → erase x xs ≡ xs
unfolding erase equiv
erase_none x [] h = refl
erase_none x (y ∷ ys) h = ground (arith, erase_none x ys h.1, h.0)

erase_count_none :
    (x : Entry) (xs : List Entry) → All (λ y. less x y ≡ true) xs → erase_count x xs ≡ 0
unfolding erase_count equiv
erase_count_none x [] h = refl
erase_count_none x (y ∷ ys) h = ground (arith, erase_count_none x ys h.1, h.0)

pub erase_first :
    (x : Entry) (xs : List Entry)
    → Sorted (x ∷ xs)
    → (erase x (x ∷ xs) ≡ xs) × (erase_count x (x ∷ xs) ≡ 1)
unfolding erase erase_count equiv
erase_first x xs s = ground (arith, less_irrefl x, erase_none x xs s.0, erase_count_none x xs s.0)

-- No two entries carry the same identifier.
abbrev pub Distinct : List Entry → Type 0
Distinct [] = Unit {0}
Distinct (x ∷ xs) = All (λ y. x.id ≢ y.id) xs × Distinct xs

pub insert-Distinct :
    (x : Entry) (xs : List Entry) → All (λ y. x.id ≢ y.id) xs → Distinct xs → Distinct (insert x xs)
unfolding insert
insert-Distinct x [] h d = (tt, tt)
insert-Distinct x (y ∷ ys) h d = elim (Bool-cases (less x y)) [
  | inl e ↦ rw e (h, d)
  | inr e ↦
      rw e (All-insert (λ z. y.id ≢ z.id) x ys (λ p. h.0 (sym p)) d.0, insert-Distinct x ys h.1 d.1)
]

-- An entry with an identifier of its own is equivalent to none.
pub not_equiv_of_ids :
    (x : Entry) (xs : List Entry) → All (λ y. x.id ≢ y.id) xs → All (λ y. equiv x y ≡ false) xs
not_equiv_of_ids x [] h = tt
not_equiv_of_ids x (y ∷ ys) h = (ground (arith, equiv-id x y, h.0), not_equiv_of_ids x ys h.1)
