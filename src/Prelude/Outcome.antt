-- ===== src/Prelude/Outcome.antt =====
-- What stops a run of the C++ code: a failed `assert`, an access out of bounds, a read through an
-- end iterator, `abort` and `exit`, or an `int` that overflows. A run that goes on is `ok`.
use mathlib.Core.Logic.{◌⊎◌, inl, inr}
use mathlib.Core.Bool.{Bool, true, false}

pub data Fault : Type 0 where
  assert_failed out_of_bounds end_iterator aborted overflow : Fault

-- How a run of code that computes a `B` ends.
pub data Result {ℓ} (B : Type ℓ) : Type ℓ where
  err : Fault → Result B
  ok : B → Result B

-- `assert(test)`, or another test that stops the run with the fault `why`.
abbrev pub guard : Bool → Fault → Result (Unit {0})
guard false why = err why
guard true why = ok tt

infixl 5 ◌>>=◌ ◌>>◌
abbrev pub ◌>>=◌ {ℓ κ} : {B : Type ℓ} {C : Type κ} → Result B → (B → Result C) → Result C
err why >>= rest = err why
ok b >>= rest = rest b

abbrev pub ◌>>◌ {ℓ} : {C : Type ℓ} → Result (Unit {0}) → Result C → Result C
test >> rest = test >>= λ _. rest

-- A run ends in a value of which `P` holds, or in a fault that is allowed.
abbrev pub Ends {ℓ} : {A : Type ℓ} → (Fault → Type 0) → (A → Type 0) → Result A → Type 0
Ends F P (ok a) = P a
Ends F P (err e) = F e

-- No fault is allowed.
abbrev pub Never : Fault → Type 0
Never _ = ⊥

-- Every fault is allowed.
abbrev pub Any : Fault → Type 0
Any _ = Unit {0}

-- A run ends without a fault.
abbrev pub Returns {ℓ} : {A : Type ℓ} → (A → Type 0) → Result A → Type 0
Returns P r = Ends Never P r

module _ {ℓ κ} {A : Type ℓ} {B : Type κ} where
  pub Ends->>= :
      (F : Fault → Type 0) (P : A → Type 0) (Q : B → Type 0) (m : Result A) (f : A → Result B)
      → Ends F P m
      → ((a : A) → P a → Ends F Q (f a))
      → Ends F Q (m >>= f)
  Ends->>= F P Q (ok a) f h k = k a h
  Ends->>= F P Q (err e) f h k = h

module _ {ℓ} {A : Type ℓ} where
  pub Ends-map :
      (F : Fault → Type 0) (P Q : A → Type 0) (m : Result A)
      → ((a : A) → P a → Q a)
      → Ends F P m
      → Ends F Q m
  Ends-map F P Q (ok a) f h = f a h
  Ends-map F P Q (err e) f h = h

  pub Ends-and :
      (F G : Fault → Type 0) (P Q : A → Type 0) (m : Result A)
      → Ends F P m
      → Ends G Q m
      → Ends F (λ a. P a × Q a) m
  Ends-and F G P Q (ok a) h k = (h, k)
  Ends-and F G P Q (err e) h k = h

  pub Ends-Any : (m : Result A) → Ends Any (λ _. Unit {0}) m
  Ends-Any (ok a) = tt
  Ends-Any (err e) = tt

  pub Ends-faults :
      (F G : Fault → Type 0) (P : A → Type 0) (m : Result A)
      → ((e : Fault) → F e → G e)
      → Ends F P m
      → Ends G P m
  Ends-faults F G P (ok a) f h = h
  Ends-faults F G P (err e) f h = f e h

  pub Ends-of-Returns :
      (F : Fault → Type 0) (P : A → Type 0) (m : Result A) → Returns P m → Ends F P m
  Ends-of-Returns F P (ok a) h = h
  Ends-of-Returns F P (err e) h = absurd h

-- A bound that is met, or a fault that is allowed in its place.
pub or_map {ℓ κ μ} : {A : Type ℓ} {B : Type κ} {C : Type μ} → (A → B) → A ⊎ C → B ⊎ C
or_map f (inl a) = inl (f a)
or_map f (inr c) = inr c
