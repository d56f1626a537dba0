-- ===== src/Sim/Ideal/Service.antt =====
-- What `Ideal` sends, how long the service node is busy with it, and where its statistics end.
use homa_nic.Prelude.{ℕ, zero, suc, ◌+◌, ◌≤◌, ◌<◌, ◌^◌, ◌≡◌, ap, refl, arith}
use homa_nic.Prelude.{List, [], ◌∷◌, length, err}
use homa_nic.Prelude.{out_of_bounds}
use homa_nic.Prelude.Int.{ℤ, pos, pos_part, ◌<ℤ◌, ◌-ℤ◌, ◌+ℤ◌, to_u64, -ℤ_parts}
use Prim.Native.Nat.{min}
use homa_nic.Sim.Entry.{Entry}
use homa_nic.Sim.Multiset.{insert, offset}
use homa_nic.Sim.Base.{Base, Slotstat, arrival, chunks, sent, update_slot, new_entry}
use homa_nic.Sim.Ideal.{
  Own, ideal, enqueue, dequeue, step, occupy, note_size, note_arrival, mass_before,
}
use homa_nic.Sim.Ideal.Invariant.{Unsent, busy, rest, dequeue_first}
use homa_nic.Sim.Ideal.Arrivals.{nonzero, note_size_same}

-- A packet keeps the service node busy for as many slots as it has chunks: 24 of them, or what is
-- left of the message when that is less.
pub busy_lem :
    (e : Entry)
    → Unsent e
    → pos_part e.remaining < 2 ^ 31
    → busy e ≡ min (pos_part e.remaining) chunks
unfolding ◌-ℤ◌ ◌+ℤ◌ to_u64
busy_lem e u small = ground arith

-- The chunks that wait.
unfoldable pub backlog : List Entry → ℕ
backlog [] = 0
backlog (e ∷ hw) = pos_part e.remaining + backlog hw

backlog-insert :
    (e : Entry) (hw : List Entry) → backlog (insert e hw) ≡ pos_part e.remaining + backlog hw
unfolding backlog insert
backlog-insert e [] = refl
backlog-insert e (x ∷ hw) = ground (arith, backlog-insert e hw)

pub backlog-rest :
    (e : Entry) (hw : List Entry)
    → Unsent e
    → pos_part e.remaining < 2 ^ 31
    → backlog (rest e hw) + busy e ≡ backlog (e ∷ hw)
unfolding backlog
backlog-rest e hw u small =
    ground
      (arith, busy_lem e u small, backlog-insert (sent e) hw, -ℤ_parts e.remaining (pos chunks))

-- A dequeue takes from the backlog exactly the chunks that the service node is then busy with.
pub backlog-dequeue :
    (b : Base) (e : Entry) (hw : List Entry)
    → Unsent e
    → pos_part e.remaining < 2 ^ 31
    → let (_, t) = dequeue (record { base = b; own = e ∷ hw }) in
      backlog t.own + t.base.buff ≡ backlog (e ∷ hw)
backlog-dequeue b e hw u small = rw (dequeue_first e hw b) (backlog-rest e hw u small)

update_slot_outside :
    (i : ℕ) (f : Slotstat → Slotstat) (ss : List Slotstat)
    → length ss ≤ i
    → update_slot i f ss ≡ err out_of_bounds
unfolding update_slot
update_slot_outside i f [] h = refl
update_slot_outside zero f (s ∷ ss) h = absurd (omega arith)
update_slot_outside (suc i) f (s ∷ ss) h = rw (update_slot_outside i f ss (omega arith))

occupy_outside :
    (hw : List Entry) (ss : List Slotstat)
    → length ss < length hw
    → occupy hw ss ≡ err out_of_bounds
unfolding occupy
occupy_outside [] ss h = absurd (omega arith)
occupy_outside (e ∷ hw) [] h = refl
occupy_outside (e ∷ hw) (s ∷ ss) h = rw (occupy_outside hw ss (omega arith))

-- The table `slotstats` has 1024 rows and no bound is tested: an arrival with at least 1024
-- messages before it writes outside the table.
pub arrival_overflow :
    (ts : ℕ) (len : ℤ) (b : Base) (hw : Own)
    → length b.slotstats ≡ 1024
    → pos 0 <ℤ len
    → 1024 ≤ offset (new_entry ts len b) hw
    → arrival ideal ts len (record { base = b; own = hw }) ≡ err out_of_bounds
unfolding arrival enqueue
arrival_overflow ts len b hw n l h =
    let e : Entry = new_entry ts len b in
    let mass : ℕ = mass_before (offset e hw) b.buff (insert e hw) in
    let outside = update_slot_outside (offset e hw) (note_arrival mass) b.slotstats (omega arith) in
    rw (nonzero len l, outside)

-- A step over more than 1024 messages writes outside the table.
pub step_overflow :
    (ts : ℕ) (b : Base) (hw : Own)
    → length b.slotstats ≡ 1024
    → 1024 < length hw
    → step ts (record { base = b; own = hw }) ≡ err out_of_bounds
unfolding step
step_overflow ts b hw n h =
    let (_, _, _, t, _, _) = note_size_same (length hw) b in
    rw (occupy_outside hw (note_size (length hw) b).slotstats (omega (arith, ap length t)))
