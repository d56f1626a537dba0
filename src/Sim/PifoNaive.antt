-- ===== src/Sim/PifoNaive.antt =====
-- model/queues.hh: the class `PIFO_Naive`, a small sorted queue in front of a backing list that is
-- sorted in place, one position a slot. The flag `diff`, which only asks for a debug print and a
-- pause, and the print itself are left out.
pub mod Places
pub mod Contents
pub mod Advance
pub mod Moves
pub mod Step
pub mod System
pub mod Departure
pub mod Events
pub mod Run
pub mod Pulse
pub mod Ready
pub mod Drain
mod Examples
use homa_nic.Prelude.{
  ℕ, zero, suc, ◌+◌, ◌-◌, ◌≡◌, Bool, true, false, ◌&&◌, ◌||◌, not, List, [], ◌∷◌, map,
}
use homa_nic.Prelude.{
  length, get_elem?, if◌then◌else◌, ltb, leb, ◌==◌, Result, ok, err, ◌>>=◌, ◌>>◌, guard,
}
use homa_nic.Prelude.{out_of_bounds, end_iterator, assert_failed, Option, some, none, ◌++◌}
use homa_nic.Prelude.Int.{ℤ, pos, negsuc, ◌+ℤ◌, ◌-ℤ◌, eq_ℤ, ltb_ℤ, leb_ℤ, to_u64}
use mathlib.Core.Option.{get_or}
use homa_nic.Sim.Entry.{Entry, less}
use homa_nic.Sim.Multiset.{insert, last, drop_last}
use homa_nic.Sim.Base.{Base, Object, Discipline, add64, fresh}
use homa_nic.Sim.Ideal.{dequeue_own}

-- An entry of `backing`, with the flag that says that it is in its final place.
abbrev pub Slot : Type 0
Slot = Entry × Bool

-- The members of `PIFO_Naive`. `held` is the entry on its way to its place (the member `insert`);
-- `scan` and `firstunsort` are indices, or -1.
pub record Own : Type 0 where
  pub hwqueue : List Entry
  pub backing : List Slot
  pub held : Entry
  pub scan : ℤ
  pub firstunsort : ℤ
  pub active : ℤ

abbrev pub minus_one : ℤ
minus_one = negsuc 0

-- `new PIFO_Naive(priorities, tfile)`. The member `insert` has no initial value: it is the argument.
unfoldable pub new_pifo : Entry → Object Own
new_pifo held = record {
  base = fresh;
  own = record {
    hwqueue = [];
    backing = [];
    held = held;
    scan = minus_one;
    firstunsort = minus_one;
    active = pos 0;
  };
}

-- `*std::next(begin, n)`.
unfoldable pub elem_at {ℓ} : {A : Type ℓ} → List A → ℕ → Result A
elem_at [] n = err out_of_bounds
elem_at (x ∷ xs) zero = ok x
elem_at (x ∷ xs) (suc n) = elem_at xs n

-- `insert(std::next(begin, n), x)` and `erase(std::next(begin, n))`, at a place that is there.
unfoldable pub insert_at {ℓ} : {A : Type ℓ} → ℕ → A → List A → List A
insert_at n x [] = x ∷ []
insert_at zero x (y ∷ ys) = x ∷ y ∷ ys
insert_at (suc n) x (y ∷ ys) = y ∷ insert_at n x ys

unfoldable pub erase_at {ℓ} : {A : Type ℓ} → ℕ → List A → List A
erase_at n [] = []
erase_at zero (y ∷ ys) = ys
erase_at (suc n) (y ∷ ys) = y ∷ erase_at n ys

unfoldable pub enqueue : Entry → Object Own → Result (Object Own)
enqueue entry s = ok (record s {
  own = record (s.own) { hwqueue = insert entry s.own.hwqueue; active = s.own.active +ℤ pos 1 };
})

-- `active--` when the message is complete.
unfoldable pub less_active : List Entry → ℤ → ℤ
less_active [] a = a
less_active (e ∷ hw) a = if ltb_ℤ (pos 0) (e.remaining -ℤ pos 24) then a else a -ℤ pos 1

unfoldable pub dequeue : Object Own → Entry × Object Own
unfolding dequeue_own less_active
dequeue s =
    let (e, hw, busy) = dequeue_own s.own.hwqueue in
    (
      e,
      record {
        base = record (s.base) { buff = get_or busy s.base.buff };
        own = record (s.own) { hwqueue = hw; active = less_active s.own.hwqueue s.own.active };
      },
    )

unfoldable pub empty : Own → Bool
empty o = eq_ℤ o.active (pos 0)

-- `active > queuestats.maxsize` compares as `uint64_t`.
unfoldable pub note_active : ℤ → Base → Base
note_active a b =
    if b.queuestats.maxsize == 0 || ltb b.queuestats.maxsize (to_u64 a)
    then record b { queuestats = record (b.queuestats) { maxsize = to_u64 a } }
    else b

-- Take up the first entry that is out of place.
unfoldable pub resume_at : ℤ → Own → Result Own
resume_at (pos n) o = do
  missort ← elem_at o.backing n
  guard (not missort.1) assert_failed
  ok (record o {
    backing = erase_at n o.backing;
    held = missort.0;
    scan = pos n;
    firstunsort = minus_one;
  })
resume_at (negsuc n) o = err out_of_bounds

unfoldable pub resume : Own → Result Own
resume o =
    if eq_ℤ o.scan minus_one && not (eq_ℤ o.firstunsort minus_one)
    then resume_at o.firstunsort o
    else ok o

-- The held entry belongs before the entry at `n`, which is in its final place.
unfoldable pub place : ℕ → Own → Own
place n o = record o {
  backing = insert_at n (o.held, true) o.backing;
  firstunsort = if leb_ℤ (pos n) o.firstunsort then o.firstunsort +ℤ pos 1 else o.firstunsort;
  scan = minus_one;
}

-- It belongs before an entry that is not: the two change roles.
unfoldable pub exchange : ℕ → Entry → Own → Own
exchange n tmp o = record o {
  backing = insert_at n (o.held, false) (erase_at n o.backing);
  held = tmp;
  firstunsort =
      if ltb_ℤ (pos n) o.firstunsort || eq_ℤ o.firstunsort minus_one then pos n else o.firstunsort;
  scan = pos (suc n);
}

unfoldable pub compare_at : ℕ → Slot → Own → Own
unfolding place exchange
compare_at n other o =
    if less o.held other.0
    then (if other.1 then place n o else exchange n other.0 o)
    else record o { scan = pos (suc n) }

-- Move the held entry on by one position. `scan >= backing.size()` compares as unsigned.
unfoldable pub advance_at : ℤ → Own → Result Own
advance_at (pos n) o =
    if leb (length o.backing) n
    then (do
      guard (n == length o.backing) out_of_bounds
      ok (record o { backing = insert_at n (o.held, true) o.backing; scan = minus_one }))
    else (elem_at o.backing n >>= λ other. ok (compare_at n other o))
advance_at (negsuc zero) o = ok o
advance_at (negsuc (suc n)) o = err out_of_bounds

unfoldable pub advance : Own → Result Own
advance o = advance_at o.scan o

-- `*std::next(hwqueue.begin(), n)` at an `int` n.
unfoldable pub at_int : List Entry → ℤ → Result Entry
at_int hw (pos n) = elem_at hw n
at_int hw (negsuc n) = err out_of_bounds

-- Should the front of `backing` move to the sorted queue? The sizes compare as `size_t`.
unfoldable pub wants_front : ℤ → List Entry → List Slot → Result Bool
wants_front priorities hw [] = ok false
wants_front priorities hw (x ∷ backing) =
    if leb (length hw) (to_u64 (priorities +ℤ pos 1 -ℤ pos 8))
    then ok true
    else (at_int hw (priorities -ℤ pos 8) >>= λ e. ok (less x.0 e))

unfoldable pub promote : List Slot → Own → Own
promote [] o = o
promote (x ∷ backing) o = record o {
  backing = backing;
  hwqueue = insert x.0 o.hwqueue;
  firstunsort = if ltb_ℤ o.firstunsort (pos 0) then o.firstunsort else o.firstunsort -ℤ pos 1;
  scan = if leb_ℤ o.scan (pos 0) then o.scan else o.scan -ℤ pos 1;
}

unfoldable pub note_lowwater : Base → Base
note_lowwater b = record b {
  queuestats = record (b.queuestats) { lowwater = add64 b.queuestats.lowwater 1 };
}

-- A held entry is put down where it is.
unfoldable pub put_down_at : ℤ → Own → Result Own
put_down_at (pos n) o = do
  guard (leb n (length o.backing)) out_of_bounds
  ok (record o {
    backing = insert_at n (o.held, n == length o.backing) o.backing;
    firstunsort =
        if not (n == length o.backing)
          && (ltb_ℤ (pos n) o.firstunsort || eq_ℤ o.firstunsort minus_one)
        then pos n
        else o.firstunsort;
  })
put_down_at (negsuc zero) o = ok o
put_down_at (negsuc (suc n)) o = err out_of_bounds

-- The last entry of the sorted queue becomes the held one.
unfoldable pub take_last : List Entry → Own → Result Own
take_last [] o = err end_iterator
take_last (e ∷ hw) o = ok (record o { hwqueue = drop_last e hw; held = last e hw; scan = pos 0 })

unfoldable pub demote : ℤ → Own → Result Own
demote priorities o =
    if leb (to_u64 (priorities +ℤ pos 1)) (length o.hwqueue)
    then (put_down_at o.scan o >>= λ o'. take_last o'.hwqueue o')
    else ok o

module _ (priorities : ℤ) where
  unfoldable pub step : ℕ → Object Own → Result (Object Own)
  step ts s = do
    o ← resume s.own
    o' ← advance o
    front ← wants_front priorities o'.hwqueue o'.backing
    let b = note_active s.own.active s.base
    o'' ← demote priorities (if front then promote o'.backing o' else o')
    ok (record { base = if front then note_lowwater b else b; own = o'' })

  abbrev pub pifo_naive : Discipline Own
  pifo_naive = record {
    enqueue = enqueue;
    dequeue = dequeue;
    empty = empty;
    size = λ o. o.active;
    step = step;
  }
