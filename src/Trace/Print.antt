-- ===== src/Trace/Print.antt =====
-- app/lib/time_trace.cc: `print_internal`. The text that `snprintf` makes of an event is left out: a
-- printout is the time that it starts with and the lines in their order, each with its core.
pub mod Scan
pub mod Merge
pub mod Skip
pub mod Result
use homa_nic.Prelude.{
  ℕ, zero, suc, ◌+◌, ◌-◌, ◌*◌, ◌^◌, Bool, true, false, ◌&&◌, not, Option, none, some, List, [], ◌∷◌,
  map,
}
use homa_nic.Prelude.{length, get_elem?, set, ltb, ◌==◌, if◌then◌else◌}
use mathlib.Core.Option as Opt
use Prim.Native.String.{String}
use homa_nic.Trace.Buffer.{Event, Buffer, is_set, buffer_size, next_of, first_index}

-- A buffer with the index of its next event to consider, `current[i]`.
pub record Cursor : Type 0 where
  pub buffer : Buffer
  pub current : ℕ

pub record Line : Type 0 where
  pub core : String
  pub event : Event

abbrev pub event_at : Cursor → Event
event_at c = c.buffer.events c.current

abbrev pub advance : Cursor → Cursor
advance c = record c { current = next_of c.current }

-- The cursors at the oldest event of each buffer.
unfoldable pub cursors : List Buffer → List Cursor
cursors [] = []
cursors (b ∷ bs) = record { buffer = b; current = first_index b } ∷ cursors bs

-- The most recent of the oldest times; `t` is the one so far.
unfoldable pub start_time : ℕ → List Cursor → ℕ
start_time t [] = t
start_time t (c ∷ cs) =
    start_time
      (if is_set (event_at c) && ltb t (event_at c).timestamp then (event_at c).timestamp else t) cs

-- Is the event before the start?
abbrev pub too_old : ℕ → Cursor → Bool
too_old start c =
    is_set (event_at c)
    && (ltb (event_at c).timestamp start && not (c.current == c.buffer.next_index))

unfoldable pub skip : ℕ → ℕ → Cursor → Option Cursor
skip zero start c = none
skip (suc fuel) start c = elim (too_old start c) [
  | true ↦ skip fuel start (advance c)
  | false ↦ some c
]

unfoldable pub skip_all : ℕ → ℕ → List Cursor → Option (List Cursor)
skip_all fuel start [] = some []
skip_all fuel start (c ∷ cs) = elim (skip fuel start c) [
  | none ↦ none
  | some c' ↦ Opt.map (λ cs'. c' ∷ cs') (skip_all fuel start cs)
]

-- Has the buffer an event before `earliest`?
abbrev pub is_earlier : ℕ → Cursor → Bool
is_earlier earliest c =
    not (c.current == c.buffer.next_index)
    && (is_set (event_at c) && ltb (event_at c).timestamp earliest)

-- The search for the earliest event; `i` is the index of the cursor that comes next.
unfoldable pub scan : ℕ → Option ℕ → ℕ → List Cursor → Option ℕ
scan i cur_buf earliest [] = cur_buf
scan i cur_buf earliest (c ∷ cs) =
    let w : Bool = is_earlier earliest c in
    scan (suc i) (if w then some i else cur_buf) (if w then (event_at c).timestamp else earliest) cs

-- `~0` as a `uint64_t`.
abbrev pub latest : ℕ
latest = 2 ^ 64 - 1

-- The loop that prints one event in each round.
unfoldable pub print_loop : ℕ → List Cursor → Option (List Line)
print_loop zero cs = none
print_loop (suc fuel) cs = elim (scan 0 none latest cs) [
  | none ↦ some []
  | some i ↦ elim (get_elem? cs i) [
    | none ↦ none
    | some c ↦
        Opt.map (λ ls. record { core = c.buffer.name; event = event_at c } ∷ ls)
          (print_loop fuel (set cs i (advance c)))
  ]
]

-- The lines from the time `start` on. A buffer has fewer than 2 ^ 16 events to skip and to print,
-- which is what the fuel of each loop allows.
unfoldable pub print_from : ℕ → List Buffer → Option (ℕ × List Line)
print_from start bs = elim (skip_all buffer_size start (cursors bs)) [
  | none ↦ none
  | some cs ↦ Opt.map (λ ls. (start, ls)) (print_loop (suc (length bs * buffer_size)) cs)
]

-- The time of the first line, and the lines of events.
unfoldable pub print_internal : List Buffer → Option (ℕ × List Line)
print_internal bs = print_from (start_time 0 (cursors bs)) bs
