-- ===== src/Sim/Entry.antt =====
-- model/queues.hh: `Queue::entry_t` and its order `Queue::Compare`.
use homa_nic.Prelude.{ℕ, ◌≡◌, Bool, true, false, ◌&&◌, not, arith}
use homa_nic.Prelude.{ltb, if◌then◌else◌}
use homa_nic.Prelude.Int.{ℤ, pos, ltb_ℤ, eq_ℤ}

pub record Entry : Type 0 where
  pub ts : ℕ
  pub id : ℕ
  pub length : ℤ
  pub remaining : ℤ
  pub taint : Bool

-- `entry_t{0,0,0,0,false}`, what `dequeue` returns when it has nothing to send.
abbrev pub null_entry : Entry
null_entry = record { ts = 0; id = 0; length = pos 0; remaining = pos 0; taint = false }

-- `Compare::operator()`.
unfoldable pub less : Entry → Entry → Bool
less l r =
    if ltb_ℤ l.remaining r.remaining
    then true
    else if eq_ℤ l.remaining r.remaining && ltb l.id r.id
    then true
    else false

-- Two entries are equivalent when neither is less.
unfoldable pub equiv : Entry → Entry → Bool
unfolding less
equiv l r = not (less l r) && not (less r l)

pub less_irrefl : (a : Entry) → less a a ≡ false
unfolding less
less_irrefl a = ground arith

pub less_asymm : (a b : Entry) → less a b ≡ true → less b a ≡ false
unfolding less
less_asymm a b h = ground arith

pub less_trans : (a b c : Entry) → less a b ≡ true → less b c ≡ true → less a c ≡ true
unfolding less
less_trans a b c h k = ground arith

pub not_less_trans : (a b c : Entry) → less a b ≡ false → less b c ≡ false → less a c ≡ false
unfolding less
not_less_trans a b c h k = ground arith

pub equiv-id : (a b : Entry) → equiv a b ≡ true → a.id ≡ b.id
unfolding equiv
equiv-id a b h = ground arith

pub equiv_refl : (a : Entry) → equiv a a ≡ true
unfolding equiv
equiv_refl a = ground arith
