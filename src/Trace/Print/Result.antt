-- ===== src/Trace/Print/Result.antt =====
-- A printout of the buffers that threads have recorded in.
use homa_nic.Prelude.{
  ℕ, zero, suc, ◌-◌, ◌*◌, ◌≤◌, ◌<◌, ◌≡◌, ◌∙◌, refl, ap, Bool, true, false, ◌&&◌, some, List, [],
  ◌∷◌, map,
}
use homa_nic.Prelude.{arith, length, length-drop, length-map, drop, All, ltb, leb, if◌then◌else◌}
use Prim.Native.Nat.{max}
use Prim.Native.String.{String}
use homa_nic.Trace.Buffer.{
  Event, Buffer, is_set, buffer_size, fresh, first_index, record_event, record_all,
}
use homa_nic.Trace.Buffer.Log.{Holds, Formatted, record-Holds}
use homa_nic.Trace.Print.{
  Cursor, Line, start_time, cursors, skip_all, print_loop, print_from, print_internal,
}
use homa_nic.Trace.Print.Scan.{Track, FollowAll, Timed}
use homa_nic.Trace.Print.Merge.{
  InOrder, LinesInOrder, count_lines, count_from, line, total, Ready, print_loop-Merged,
}
use homa_nic.Trace.Print.Skip.{kept, skip_all-FollowAll, InOrder-keep, Timed-keep, count-keep}

-- The buffer of a thread that has recorded the events of the track, which are all that it ever
-- recorded.
abbrev pub buffer_of : Track → Buffer
buffer_of t = record_all false t.events (fresh t.core)

-- What a printout takes from it.
abbrev pub retained : Track → Track
retained t = record t { events = drop (length t.events - (buffer_size - 1)) t.events }

-- The time of the oldest event that is retained; 0 for an empty trace.
abbrev pub oldest_time : Track → ℕ
oldest_time t = elim t.events [ [] ↦ 0 | e ∷ es ↦ e.timestamp ]

-- The most recent of the oldest times.
abbrev pub common_start : ℕ → List Track → ℕ
common_start m [] = m
common_start m (t ∷ ts) = common_start (max m (oldest_time t)) ts

-- The events of a thread: with formats, in the order of their times, none at the greatest time.
abbrev pub IsTrack : Track → Type 0
IsTrack t = Formatted t.events × InOrder 0 t.events × Timed t.events

name-record_all : (es : List Event) (b : Buffer) → (record_all false es b).name ≡ b.name
unfolding record_all record_event
name-record_all [] b = refl
name-record_all (e ∷ es) b = name-record_all es (record_event false e b)

cursors-FollowAll :
    (ts : List Track) → All IsTrack ts → FollowAll (cursors (map buffer_of ts)) (map retained ts)
unfolding cursors
cursors-FollowAll [] h = tt
cursors-FollowAll (t ∷ ts) h = (
  (name-record_all t.events (fresh t.core), record-Holds t.core t.events h.0.0),
  cursors-FollowAll ts h.1,
)

-- The first event of a cursor, as the search for the start reads it.
first_time :
    (m : ℕ) (b : Buffer) (cur : ℕ) (core : String) (es : List Event)
    → Holds b cur es
    → (length es ≡ 0 → is_set (b.events cur) ≡ false)
    → (if is_set (b.events cur) && ltb m (b.events cur).timestamp
        then (b.events cur).timestamp
        else m)
      ≡ max m (oldest_time (record { core = core; events = es }))
first_time m b cur core [] f h = rw (h refl) (omega arith)
first_time m b cur core (e ∷ es) f h = rw (f.0, f.1) (ground arith)

retained_empty : (t : Track) → length (retained t).events ≡ 0 → length t.events ≡ 0
retained_empty t h = omega (arith, h, length-drop (length t.events - (buffer_size - 1)) t.events)

fresh_unset :
    (core : String) (es : List Event)
    → length es ≡ 0
    → let b = record_all false es (fresh core) in is_set (b.events (first_index b)) ≡ false
unfolding record_all
fresh_unset core [] h = refl
fresh_unset core (e ∷ es) h = absurd (omega arith)

start_time-cursors :
    (m : ℕ) (ts : List Track)
    → All IsTrack ts
    → start_time m (cursors (map buffer_of ts)) ≡ common_start m (map retained ts)
unfolding start_time cursors
start_time-cursors m [] h = refl
start_time-cursors m (t ∷ ts) h =
    let b : Buffer = buffer_of t in
    let now =
      first_time m b (first_index b) t.core (retained t).events (record-Holds t.core t.events h.0.0)
        (λ n. fresh_unset t.core t.events (retained_empty t n)) in
    ap (λ k. start_time k (cursors (map buffer_of ts))) now
    ∙ start_time-cursors (max m (oldest_time (retained t))) ts h.1

InOrder-weaken : (m n : ℕ) (es : List Event) → InOrder n es → m ≤ n → InOrder m es
InOrder-weaken m n [] o h = tt
InOrder-weaken m n (e ∷ es) o h = (omega arith, o.1)

InOrder-drop : (k m : ℕ) (es : List Event) → InOrder m es → InOrder m (drop k es)
InOrder-drop zero m es o = o
InOrder-drop (suc k) m [] o = tt
InOrder-drop (suc k) m (e ∷ es) o = InOrder-drop k m es (InOrder-weaken m e.timestamp es o.1 o.0)

Timed-drop : (k : ℕ) (es : List Event) → Timed es → Timed (drop k es)
Timed-drop zero es t = t
Timed-drop (suc k) [] t = tt
Timed-drop (suc k) (e ∷ es) t = Timed-drop k es t.1

length-retained : (t : Track) → length (retained t).events < buffer_size
length-retained t = omega (arith, length-drop (length t.events - (buffer_size - 1)) t.events)

short : (ts : List Track) → All (λ t. length t.events < buffer_size) (map retained ts)
short [] = tt
short (t ∷ ts) = (length-retained t, short ts)

count-le-length : (p : Event → Bool) (es : List Event) → count_from p es ≤ length es
count-le-length p [] = omega arith
count-le-length p (e ∷ es) = ground (arith, count-le-length p es)

-- What the loop is left with when the events before `start` are skipped.
left : ℕ → List Track → List Track
left start ts = map (kept start) (map retained ts)

left-Ready : (start : ℕ) (ts : List Track) → All IsTrack ts → Ready start (left start ts)
unfolding left
left-Ready start [] h = (tt, tt)
left-Ready start (t ∷ ts) h =
    let k : ℕ = length t.events - (buffer_size - 1) in
    let (o, d) = left-Ready start ts h.1 in
    (
      (InOrder-keep start 0 (drop k t.events) (InOrder-drop k 0 t.events h.0.1), o),
      (Timed-keep start (drop k t.events) (Timed-drop k t.events h.0.2), d),
    )

total-left :
    (p : Line → Bool) (start : ℕ) (ts : List Track)
    → All IsTrack ts
    → total p (left start ts) ≡ total (λ l. p l && leb start l.event.timestamp) (map retained ts)
unfolding left
total-left p start [] h = refl
total-left p start (t ∷ ts) h =
    let k : ℕ = length t.events - (buffer_size - 1) in
    omega (
      arith,
      count-keep (λ e. p (line t e)) start 0 (drop k t.events) (InOrder-drop k 0 t.events h.0.1),
      total-left p start ts h.1,
    )

total_bound :
    (p : Line → Bool) (ts : List Track) → total p (map retained ts) ≤ length ts * buffer_size
total_bound p [] = omega arith
total_bound p (t ∷ ts) = omega (
  arith,
  total_bound p ts,
  length-retained t,
  count-le-length (λ e. p (line (retained t) e)) (retained t).events,
)

printed :
    (start : ℕ) (bs : List Buffer) (ds : List Cursor) (out : List Line)
    → skip_all buffer_size start (cursors bs) ≡ some ds
    → print_loop (suc (length bs * buffer_size)) ds ≡ some out
    → print_from start bs ≡ some (start, out)
unfolding print_from
printed start bs ds out q r = rw (q, r, print_from) refl

-- A printout of threads that have each recorded events with formats, in the order of their times,
-- none at the greatest time, completes within the rounds allowed. It starts at the most recent of
-- the oldest times that the buffers retain. Its lines are in the order of their times, none before
-- the start, and they are the events of the last 2 ^ 16 - 1 of each thread that are not before the
-- start, each once, with the name of the thread.
pub print_internal_lem :
    (ts : List Track)
    → All IsTrack ts
    → let start = common_start 0 (map retained ts) in
      (out : List Line) × (print_internal (map buffer_of ts) ≡ some (start, out))
      × LinesInOrder start out
      × ((p : Line → Bool)
          → count_lines p out ≡ total (λ l. p l && leb start l.event.timestamp) (map retained ts))
unfolding print_internal
print_internal_lem ts h =
    let start : ℕ = common_start 0 (map retained ts) in
    let s = start_time-cursors 0 ts h in
    let (ds, q, f) =
      skip_all-FollowAll buffer_size start (cursors (map buffer_of ts)) (map retained ts)
        (cursors-FollowAll ts h) (short ts) in
    let enough : total (λ _. true) (left start ts) < suc (length (map buffer_of ts) * buffer_size) =
      omega (
        arith,
        total-left (λ _. true) start ts h,
        total_bound (λ l. leb start l.event.timestamp) ts,
        length-map ts buffer_of,
      ) in
    let (out, r, o, c) =
      print_loop-Merged (suc (length (map buffer_of ts) * buffer_size)) ds (left start ts) start
        (unfold left in f) (left-Ready start ts h) enough in
    (
      out,
      ap (λ k. print_from k (map buffer_of ts)) s ∙ printed start (map buffer_of ts) ds out q r,
      o,
      λ p. c p ∙ total-left p start ts h,
    )
