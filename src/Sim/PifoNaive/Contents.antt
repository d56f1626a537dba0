-- ===== src/Sim/PifoNaive/Contents.antt =====
-- `PIFO_Naive` loses no message and makes none up, and its indices stay inside the backing list.
use homa_nic.Prelude.{ℕ, zero, suc, ◌+◌, ◌≤◌, ◌≡◌, refl, ◌∙◌, Bool, false}
use homa_nic.Prelude.{List, [], ◌∷◌, ◌++◌, length, get_elem?, some, arith}
use homa_nic.Prelude.Int.{ℤ, pos, negsuc}
use homa_nic.Sim.Entry.{Entry}
use homa_nic.Sim.Multiset.{count, count-append}
use homa_nic.Sim.PifoNaive.{Own, Slot}
use homa_nic.Sim.PifoNaive.Places.{entries, flags, bit}

-- The held entry counts while a scan is under way.
abbrev pub held_part : ℤ → Entry → List Entry
held_part (pos n) e = e ∷ []
held_part (negsuc zero) e = []
held_part (negsuc (suc n)) e = e ∷ []

-- Every message that the queue holds.
abbrev pub contents : Own → List Entry
contents o = o.hwqueue ++ (entries o.backing ++ held_part o.scan o.held)

-- `scan` is -1, or a place of the list or the one behind it.
abbrev pub InRange : ℤ → ℕ → Type 0
InRange (pos n) k = n ≤ k
InRange (negsuc zero) k = Unit {0}
InRange (negsuc (suc n)) k = ⊥

-- `firstunsort` is -1, or the place of an entry whose flag is not set.
abbrev pub Unsorted : ℤ → List Slot → Type 0
Unsorted (pos n) l = get_elem? (flags l) n ≡ some false
Unsorted (negsuc zero) l = Unit {0}
Unsorted (negsuc (suc n)) l = ⊥

pub record IsValid (o : Own) : Type 0 where
  pub scan_in : InRange o.scan (length o.backing)
  pub unsorted : Unsorted o.firstunsort o.backing

abbrev pub held_count : (Entry → Bool) → ℤ → Entry → ℕ
held_count p (pos n) e = bit p e
held_count p (negsuc zero) e = 0
held_count p (negsuc (suc n)) e = bit p e

abbrev pub tally : (Entry → Bool) → Own → ℕ
tally p o = count p o.hwqueue + (count p (entries o.backing) + held_count p o.scan o.held)

count-held_part :
    (p : Entry → Bool) (z : ℤ) (e : Entry) → count p (held_part z e) ≡ held_count p z e
unfolding count
count-held_part p (pos n) e = omega arith
count-held_part p (negsuc zero) e = refl
count-held_part p (negsuc (suc n)) e = omega arith

pub count-contents : (p : Entry → Bool) (o : Own) → count p (contents o) ≡ tally p o
count-contents p o = omega (
  arith,
  count-append p o.hwqueue (entries o.backing ++ held_part o.scan o.held),
  count-append p (entries o.backing) (held_part o.scan o.held),
  count-held_part p o.scan o.held,
)

-- A stage of the step keeps the queue valid, its messages the same, and the number of them.
abbrev pub Conserved : Own → Own → Type 0
Conserved o o' = IsValid o' × ((p : Entry → Bool) → tally p o' ≡ tally p o) × (o'.active ≡ o.active)

pub Conserved-trans : (o o' o'' : Own) → Conserved o o' → Conserved o' o'' → Conserved o o''
Conserved-trans o o' o'' h k = (k.0, λ p. k.1 p ∙ h.1 p, k.2 ∙ h.2)
