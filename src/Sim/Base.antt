-- ===== src/Sim/Base.antt =====
-- model/queues.hh: the class `Queue`, with its statistics and the operations that every queue
-- inherits. What a subclass overrides is the record `Discipline`.
pub mod Account
use homa_nic.Prelude.{
  ℕ, zero, suc, ◌+◌, ◌-◌, ◌/◌, ◌%◌, ◌^◌, ◌≤◌, ◌<◌, ◌≡◌, refl, Bool, true, false, ◌&&◌,
}
use homa_nic.Prelude.{
  List, [], ◌∷◌, ◌++◌, arith, length, if◌then◌else◌, Result, ok, err, ltb, ◌==◌, not,
}
use homa_nic.Prelude.{guard, ◌>>=◌, ◌>>◌, assert_failed, out_of_bounds, replicate}
use homa_nic.Prelude.Int.{ℤ, pos, ltb_ℤ, leb_ℤ, eq_ℤ, ◌-ℤ◌, to_u64}
use homa_nic.Sim.Entry.{Entry}
use homa_nic.Sim.Multiset.{insert, erase, erase_count, first}

-- `uint64_t` addition and subtraction.
abbrev pub add64 : ℕ → ℕ → ℕ
add64 a b = (a + b) % 2 ^ 64

abbrev pub sub64 : ℕ → ℕ → ℕ
sub64 a b = (a + 2 ^ 64 - b) % 2 ^ 64

-- A `double` is kept as the expression that computes it, so no rounding is assumed.
pub data Double : Type 0 where
  zero_double : Double
  quotient : ℤ → ℤ → Double
  plus : Double → Double → Double

-- `slotstat_t`, `queuestat_t` and `simstat_t`.
pub record Slotstat : Type 0 where
  pub occupied : ℕ
  pub arrivals : ℕ
  pub arrivalbacklog : ℕ

pub record Queuestat : Type 0 where
  pub highwater : ℕ
  pub lowwater : ℕ
  pub maxsize : ℕ

pub record Simstat : Type 0 where
  pub packets : ℕ
  pub comps : ℕ
  pub comptimes : ℕ
  pub slowdowns : ℕ
  pub violations : Double
  pub presorted : ℕ
  pub pulses : ℕ
  pub underflow : ℕ
  pub cycles : ℕ
  pub msginacc : ℕ
  pub pktinacc : ℕ

-- The data members of `Queue`, without the trace file.
pub record Base : Type 0 where
  pub buff : ℕ
  pub id : ℕ
  pub gstats : Bool
  pub slotstats : List Slotstat
  pub queuestats : Queuestat
  pub simstats : Simstat
  pub violations : List Double
  pub gqueue : List Entry

-- A queue object: the base class's members and the subclass's own.
pub record Object (S : Type 0) : Type 0 where
  pub base : Base
  pub own : S

-- The virtual functions of `Queue`. `backsize` is 0 in both subclasses.
pub record Discipline (S : Type 0) : Type 0 where
  pub enqueue : Entry → Object S → Result (Object S)
  pub dequeue : Object S → Entry × Object S
  pub empty : S → Bool
  pub size : S → ℤ
  pub step : ℕ → Object S → Result (Object S)

abbrev no_slotstat : Slotstat
no_slotstat = record { occupied = 0; arrivals = 0; arrivalbacklog = 0 }

-- A queue when it is constructed.
unfoldable pub fresh : Base
fresh = record {
  buff = 0;
  id = 0;
  gstats = true;
  slotstats = replicate 1024 no_slotstat;
  queuestats = record { highwater = 0; lowwater = 0; maxsize = 0 };
  simstats = record {
    packets = 0;
    comps = 0;
    comptimes = 0;
    slowdowns = 0;
    violations = zero_double;
    presorted = 0;
    pulses = 0;
    underflow = 0;
    cycles = 0;
    msginacc = 0;
    pktinacc = 0;
  };
  violations = [];
  gqueue = [];
}

-- `slotstats[i]` for writing.
unfoldable pub update_slot : ℕ → (Slotstat → Slotstat) → List Slotstat → Result (List Slotstat)
update_slot i f [] = err out_of_bounds
update_slot zero f (s ∷ ss) = ok (f s ∷ ss)
update_slot (suc i) f (s ∷ ss) = do rest ← update_slot i f ss; ok (s ∷ rest)

abbrev pub max_packet : ℕ
max_packet = 1500

-- `std::ceil(((double) MAX_PACKET)/64.0)`, the 64-byte chunks of a full packet.
abbrev pub chunks : ℕ
chunks = (max_packet + 63) / 64

-- `if (gstats) simstats.underflow++` and `if (gstats) simstats.packets++`.
unfoldable pub note_underflow : Base → Base
note_underflow b =
    if b.gstats
    then record b { simstats = record (b.simstats) { underflow = add64 b.simstats.underflow 1 } }
    else b

unfoldable pub note_packet : Base → Base
note_packet b =
    if b.gstats
    then record b { simstats = record (b.simstats) { packets = add64 b.simstats.packets 1 } }
    else b

-- A packet of a message that is not the best one is an inaccuracy.
unfoldable pub note_inaccuracy : Entry → Entry → Base → Base
note_inaccuracy entry best b =
    if ltb_ℤ best.remaining entry.remaining && b.gstats
    then (record b {
      simstats = record (b.simstats) {
        pktinacc = add64 b.simstats.pktinacc 1;
        violations = plus b.simstats.violations (quotient entry.remaining best.remaining);
      };
      violations = b.violations ++ (quotient entry.remaining best.remaining ∷ []);
    })
    else b

-- The statistics of a message whose last packet has gone out.
unfoldable pub note_completion : ℕ → Entry → Base → Base
note_completion ts entry b =
    if b.gstats
    then (record b {
      simstats = record (b.simstats) {
        comptimes = add64 b.simstats.comptimes (sub64 ts entry.ts);
        slowdowns = add64 b.simstats.slowdowns (sub64 ts entry.ts / to_u64 entry.length);
        comps = add64 b.simstats.comps 1;
      };
    })
    else b

-- `gqueue.erase(entry)` with the assertion that it erases one entry.
unfoldable pub remove_entry : Entry → Base → Result Base
remove_entry entry b = do
  guard (erase_count entry b.gqueue == 1) assert_failed
  ok (record b { gqueue = erase entry b.gqueue })

-- Is this the last packet of the message?
abbrev pub is_last : Entry → Bool
is_last entry = leb_ℤ (entry.remaining -ℤ pos chunks) (pos 0)

-- `remaining` after a packet.
abbrev pub sent : Entry → Entry
sent e = record e { remaining = e.remaining -ℤ pos chunks }

-- The rest of the message, put back.
unfoldable pub put_back : Entry → Base → Base
put_back entry b = record b { gqueue = insert (sent entry) b.gqueue }

-- The end of `departure`: a message that is sent whole leaves the queue, another one stays in it
-- with fewer chunks.
unfoldable pub settle : ℕ → Entry → Base → Result Base
settle ts entry b =
    if is_last entry
    then remove_entry entry (note_completion ts entry b)
    else (remove_entry entry b >>= λ b'. ok (put_back entry b'))

-- `departure` from the point where `dequeue` has returned `entry`.
unfoldable pub account : ℕ → Entry → Base → Result Base
account ts entry b =
    if eq_ℤ entry.length (pos 0)
    then ok (note_underflow b)
    else (first b.gqueue >>= λ best. settle ts entry (note_inaccuracy entry best (note_packet b)))

-- The service node works on the last packet.
unfoldable pub serve : ℕ → Base → Base
serve ts b = record b {
  simstats = record (b.simstats) { cycles = ts };
  buff = if ltb 0 b.buff then b.buff - 1 else b.buff;
}

-- The entry that `arrival` makes.
abbrev pub new_entry : ℕ → ℤ → Base → Entry
new_entry ts len b = record { ts = ts; id = b.id; length = len; remaining = len; taint = false }

module _ {S : Type 0} (d : Discipline S) where
  unfoldable pub arrival : ℕ → ℤ → Object S → Result (Object S)
  arrival ts len s = do
    guard (not (eq_ℤ len (pos 0))) assert_failed
    let entry = new_entry ts len s.base
    let b = record (s.base) { id = add64 s.base.id 1; gqueue = insert entry s.base.gqueue }
    d.enqueue entry (record s { base = b })

  -- The part of `departure` that runs when the service node is free.
  unfoldable pub send : ℕ → Object S → Result (Object S)
  send ts s = if d.empty s.own then ok s else do
    let (entry, s') = d.dequeue s
    b ← account ts entry s'.base
    ok (record s' { base = b })

  unfoldable pub departure : ℕ → Object S → Result (Object S)
  unfolding serve send
  departure ts s =
      let s' : Object S = record s { base = serve ts s.base } in
      if s'.base.buff == 0 then send ts s' else ok s'

-- `queue->gstats = on`.
abbrev pub gather_stats : {S : Type 0} → Bool → Object S → Object S
gather_stats on q = record q { base = record (q.base) { gstats = on } }

-- `queue->simstats.pulses = n`.
abbrev pub set_pulses : {S : Type 0} → ℕ → Object S → Object S
set_pulses n q = record q {
  base = record (q.base) { simstats = record (q.base.simstats) { pulses = n } };
}
