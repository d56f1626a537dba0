-- ===== src/Sim/Ideal.antt =====
-- model/queues.hh: the class `Ideal`, one multiset that always holds the best message in front.
pub mod Invariant
pub mod Arrivals
pub mod Drain
pub mod Run
pub mod Service
use homa_nic.Prelude.{ℕ, zero, suc, ◌+◌, ◌-◌, ◌≤◌, ◌<◌, ◌^◌, ◌≡◌, refl, Bool, true, false, ◌||◌}
use homa_nic.Prelude.{List, [], ◌∷◌, arith, length, if◌then◌else◌, Result, ok, err, ltb, ◌==◌}
use homa_nic.Prelude.{◌>>=◌, ◌>>◌, out_of_bounds, Option, some, none}
use mathlib.Core.Option.{get_or}
use homa_nic.Prelude.Int.{ℤ, pos, ltb_ℤ, ◌-ℤ◌, ◌+ℤ◌, to_u64}
use homa_nic.Sim.Entry.{Entry, null_entry}
use homa_nic.Sim.Multiset.{insert, offset}
use homa_nic.Sim.Base.{Base, Object, Discipline, Slotstat, add64, update_slot, chunks, sent}

-- The member `hwqueue` is all that `Ideal` adds to `Queue`.
abbrev pub Own : Type 0
Own = List Entry

-- The sum of `remaining` over the first `n` entries, on top of `mass`.
unfoldable pub mass_before : ℕ → ℕ → List Entry → ℕ
mass_before zero mass hw = mass
mass_before (suc n) mass [] = mass
mass_before (suc n) mass (e ∷ hw) = mass_before n (add64 mass (to_u64 e.remaining)) hw

unfoldable pub note_arrival : ℕ → Slotstat → Slotstat
note_arrival mass s = record s {
  arrivalbacklog = add64 s.arrivalbacklog mass;
  arrivals = add64 s.arrivals 1;
}

unfoldable pub enqueue : Entry → Object Own → Result (Object Own)
enqueue entry s = do
  let hw = insert entry s.own
  let i = offset entry s.own
  let mass = mass_before i s.base.buff hw
  slots ← update_slot i (note_arrival mass) s.base.slotstats
  ok (record { base = record (s.base) { slotstats = slots }; own = hw })

-- The chunks that go out, and the queue that is left.
unfoldable pub dequeue_own : List Entry → Entry × List Entry × Option ℕ
dequeue_own [] = (null_entry, [], none)
dequeue_own (e ∷ hw) =
    if ltb_ℤ (pos 0) (sent e).remaining
    then (e, insert (sent e) hw, some chunks)
    else (e, hw, some (to_u64 ((sent e).remaining +ℤ pos chunks)))

unfoldable pub dequeue : Object Own → Entry × Object Own
unfolding dequeue_own
dequeue s =
    let (e, hw, busy) = dequeue_own s.own in
    (e, record { base = record (s.base) { buff = get_or busy s.base.buff }; own = hw })

unfoldable pub empty : Own → Bool
empty [] = true
empty (e ∷ hw) = false

unfoldable pub note_size : ℕ → Base → Base
note_size n b =
    if b.queuestats.maxsize == 0 || ltb b.queuestats.maxsize n
    then record b { queuestats = record (b.queuestats) { maxsize = n } }
    else b

-- `slotstats[i].occupied += 1` for the index of each entry.
unfoldable pub occupy : List Entry → List Slotstat → Result (List Slotstat)
occupy [] ss = ok ss
occupy (e ∷ hw) [] = err out_of_bounds
occupy (e ∷ hw) (s ∷ ss) = do
  rest ← occupy hw ss
  ok (record s { occupied = add64 s.occupied 1 } ∷ rest)

unfoldable pub step : ℕ → Object Own → Result (Object Own)
step ts s = do
  let b = note_size (length s.own) s.base
  slots ← occupy s.own b.slotstats
  ok (record s { base = record b { slotstats = slots } })

abbrev pub ideal : Discipline Own
ideal = record {
  enqueue = enqueue;
  dequeue = dequeue;
  empty = empty;
  size = λ hw. pos (length hw);
  step = step;
}
