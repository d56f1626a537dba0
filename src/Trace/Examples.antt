-- ===== src/Trace/Examples.antt =====
-- Traces of two threads, and tests.
use homa_nic.Prelude.{
  ℕ, ◌-◌, ◌≡◌, refl, Bool, true, false, ◌&&◌, some, List, [], ◌∷◌, map, arith, drop, length, leb,
}
use homa_nic.Trace.Buffer.{Event, buffer_size, fresh, first_index, record_event, record_all}
use homa_nic.Trace.Buffer.Log.{Holds, record-Holds}
use homa_nic.Trace.Print.{Line, print_internal}
use homa_nic.Trace.Print.Scan.{Track}
use homa_nic.Trace.Print.Merge.{LinesInOrder, count_lines, total}
use homa_nic.Trace.Print.Result.{buffer_of, retained, common_start, print_internal_lem}
use Prim.Native.String.{String}

abbrev event : ℕ → String → Event
event time format = record {
  timestamp = time;
  format = some format;
  arg0 = 0;
  arg1 = 0;
  arg2 = 0;
  arg3 = 0;
}

abbrev pings : List Event
pings = event 10 "ping" ∷ event 30 "pong" ∷ event 50 "ping" ∷ []

abbrev others : List Event
others = event 20 "start" ∷ event 30 "wait" ∷ []

keeps_both :
    let b = record_all false others (fresh "C1") in
    (b.next_index ≡ 2) × (b.events 1 ≡ event 30 "wait")
unfolding record_all record_event
keeps_both = (refl, refl)

frozen_keeps_none : (record_all true others (fresh "C1")).next_index ≡ 0
unfolding record_all record_event
frozen_keeps_none = refl

record-Holds_example :
    let b = record_all false pings (fresh "main") in
    Holds b (first_index b) (drop (length pings - (buffer_size - 1)) pings)
record-Holds_example = record-Holds "main" pings (refl, (refl, (refl, tt)))

abbrev two_threads : List Track
two_threads =
    record { core = "main"; events = pings } ∷ record { core = "C1"; events = others } ∷ []

print_internal_lem_example :
    let start = common_start 0 (map retained two_threads) in
    (out : List Line) × (print_internal (map buffer_of two_threads) ≡ some (start, out))
    × LinesInOrder start out
    × ((p : Line → Bool)
        → count_lines p out
          ≡ total (λ l. p l && leb start l.event.timestamp) (map retained two_threads))
print_internal_lem_example = print_internal_lem two_threads (
  (
    (refl, (refl, (refl, tt))),
    (omega arith, (omega arith, (omega arith, tt))),
    (omega arith, (omega arith, (omega arith, tt))),
  ),
  (((refl, (refl, tt)), (omega arith, (omega arith, tt)), (omega arith, (omega arith, tt))), tt),
)
