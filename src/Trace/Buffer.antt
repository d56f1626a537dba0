-- ===== src/Trace/Buffer.antt =====
-- app/lib/time_trace.cc: `time_trace::buffer` and `record`. The array `events` has 2 ^ 16 slots; it
-- is a function of the index, and each index that the code uses is masked.
pub mod Log
use homa_nic.Prelude.{
  ℕ, zero, suc, ◌+◌, ◌-◌, ◌%◌, ◌^◌, Bool, true, false, Option, none, some, List, [], ◌∷◌,
}
use homa_nic.Prelude.{◌==◌, if◌then◌else◌}
use Prim.Native.String.{String}

-- `struct event`. A format of `none` is the NULL that marks a slot as invalid.
pub record Event : Type 0 where
  pub timestamp : ℕ
  pub format : Option String
  pub arg0 : ℕ
  pub arg1 : ℕ
  pub arg2 : ℕ
  pub arg3 : ℕ

abbrev pub no_event : Event
no_event = record { timestamp = 0; format = none; arg0 = 0; arg1 = 0; arg2 = 0; arg3 = 0 }

-- `event->format != NULL`.
abbrev pub is_set : Event → Bool
is_set e = elim e.format [ none ↦ false | some f ↦ true ]

abbrev pub buffer_size : ℕ
buffer_size = 2 ^ 16

-- The members that tracing uses; `ref_count` is kept with the threads.
pub record Buffer : Type 0 where
  pub name : String
  pub next_index : ℕ
  pub events : ℕ → Event

-- The constructor marks every slot invalid.
abbrev pub fresh : String → Buffer
fresh name = record { name = name; next_index = 0; events = λ _. no_event }

-- `(i + 1) & BUFFER_MASK`, or `(i + 1) % BUFFER_SIZE`.
abbrev pub next_of : ℕ → ℕ
next_of i = (i + 1) % buffer_size

-- `events[i] = e`.
abbrev pub write : ℕ → Event → (ℕ → Event) → ℕ → Event
write i e events j = if j == i then e else events j

-- `buffer::record`. A frozen trace takes no events.
unfoldable pub record_event : Bool → Event → Buffer → Buffer
record_event true e b = b
record_event false e b = record b {
  next_index = next_of b.next_index;
  events = write b.next_index e b.events;
}

-- A sequence of calls of `record`, the oldest first.
unfoldable pub record_all : Bool → List Event → Buffer → Buffer
record_all frozen [] b = b
record_all frozen (e ∷ es) b = record_all frozen es (record_event frozen e b)

-- Where a printout begins: `events[next_index + 1]` when it is valid, otherwise `events[0]`.
unfoldable pub first_index : Buffer → ℕ
first_index b = let index = next_of b.next_index in if is_set (b.events index) then index else 0
