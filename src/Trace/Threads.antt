-- ===== src/Trace/Threads.antt =====
-- app/lib/time_trace.cc: `thread_buffer`, `cleanup` and the calls that reach a buffer through a
-- pointer. A buffer on the heap is a cell of the store, and a pointer is its number; an operation
-- that follows a pointer to no cell, or NULL, gives none. An operation under the mutex is one step; a printout is two, since it follows its copy
-- of the pointers after it has released the mutex.
pub mod Cleanup
pub mod Consistent
pub mod Steps
pub mod Leave
pub mod Globals
pub mod Safety
pub mod Printout
mod Examples
use homa_nic.Prelude.{
  ℕ, zero, suc, ◌+◌, ◌≡◌, Bool, true, false, Option, none, some, List, [], ◌∷◌, ◌++◌,
}
use homa_nic.Prelude.{◌==◌, if◌then◌else◌, get_elem?}
use homa_nic.Prelude.Int.{ℤ, pos, ◌+ℤ◌, ◌-ℤ◌, eq_ℤ}
use mathlib.Core.Option as Opt
use Prim.Native.String.{String}
use homa_nic.Trace.Buffer.{Event, Buffer, fresh, record_event}
use homa_nic.Trace.Print.{Line, print_internal}

-- A `buffer` with its `ref_count`.
pub record Cell : Type 0 where
  pub ref_count : ℤ
  pub trace : Buffer

-- The static members: `tb` of each thread, `thread_buffers`, `frozen`; and the heap, where the
-- next `new` takes the number `unused`.
pub record Threads : Type 0 where
  pub tb : ℕ → Option ℕ
  pub thread_buffers : List ℕ
  pub frozen : Bool
  pub store : ℕ → Option Cell
  pub unused : ℕ

abbrev pub no_threads : Threads
no_threads = record {
  tb = λ _. none;
  thread_buffers = [];
  frozen = false;
  store = λ _. none;
  unused = 0;
}

-- `f` with the value `a` at `i`.
abbrev pub update {ℓ} : {A : Type ℓ} → ℕ → A → (ℕ → A) → ℕ → A
update i a f j = if j == i then a else f j

-- A change of the cell behind a pointer.
unfoldable pub at_cell : (Cell → Cell) → ℕ → (ℕ → Option Cell) → Option (ℕ → Option Cell)
at_cell f b store = Opt.map (λ c. update b (some (f c)) store) (store b)

-- `time_trace::record` on a thread.
unfoldable pub trace_event : ℕ → Event → Threads → Option Threads
trace_event t e s = elim (s.tb t) [
  | none ↦ none
  | some b ↦
      Opt.map (λ store. record s { store = store })
        (at_cell (λ c. record c { trace = record_event s.frozen e c.trace }) b s.store)
]

-- What the constructor records in a new buffer.
abbrev pub created : ℕ → Event
created time = record {
  timestamp = time;
  format = some "Created new thread_buffer";
  arg0 = 0;
  arg1 = 0;
  arg2 = 0;
  arg3 = 0;
}

-- The constructor up to `buffer = tb`: the thread `t` has a buffer.
unfoldable pub ensure : ℕ → String → ℕ → Threads → Option Threads
ensure t name time s = elim (s.tb t) [
  | some b ↦ some s
  | none ↦ trace_event t (created time) (record s {
    tb = update t (some s.unused) s.tb;
    thread_buffers = s.thread_buffers ++ s.unused ∷ [];
    store = update s.unused (some (record { ref_count = pos 0; trace = fresh name })) s.store;
    unused = suc s.unused;
  })
]

-- The constructor of `thread_buffer`, on the thread `t`, with its member `buffer`.
unfoldable pub construct : ℕ → String → ℕ → Threads → Option (ℕ × Threads)
construct t name time s = elim (ensure t name time s) [
  | none ↦ none
  | some s' ↦ elim (s'.tb t) [
    | none ↦ none
    | some b ↦
        Opt.map (λ store. (b, record s' { store = store }))
          (at_cell (λ c. record c { ref_count = c.ref_count +ℤ pos 1 }) b s'.store)
  ]
]

-- The destructor, on the thread `t`, of an object whose member `buffer` is `b`.
unfoldable pub destroy : ℕ → ℕ → Threads → Option Threads
destroy t b s = elim (s.store b) [
  | none ↦ none
  | some c ↦
      let left = c.ref_count -ℤ pos 1 in
      some (record s {
        store = update b (some (record c { ref_count = left })) s.store;
        tb = if eq_ℤ left (pos 0) then update t none s.tb else s.tb;
      })
]

-- The loop of `cleanup`, from the last buffer down to the first.
unfoldable pub cleanup_from : List ℕ → (ℕ → Option Cell) → Option (List ℕ × (ℕ → Option Cell))
cleanup_from [] store = some ([], store)
cleanup_from (b ∷ bs) store = elim (cleanup_from bs store) [
  | none ↦ none
  | some (bs', store') ↦ elim (store' b) [
    | none ↦ none
    | some c ↦
        some (if eq_ℤ c.ref_count (pos 0) then (bs', update b none store') else (b ∷ bs', store'))
  ]
]

unfoldable pub cleanup : Threads → Option Threads
cleanup s =
    Opt.map (λ (r : List ℕ × (ℕ → Option Cell)). record s { thread_buffers = r.0; store = r.1 })
      (cleanup_from s.thread_buffers s.store)

unfoldable pub freeze : Threads → Threads
freeze s = record s { frozen = true }

-- What `print_internal` does first: `freeze`, and a copy of the pointers under the mutex.
unfoldable pub copy_pointers : Threads → List ℕ × Threads
copy_pointers s = (s.thread_buffers, freeze s)

-- The buffers behind the copied pointers.
unfoldable pub gather : List ℕ → (ℕ → Option Cell) → Option (List Buffer)
gather [] store = some []
gather (b ∷ bs) store = elim (store b) [
  | none ↦ none
  | some c ↦ Opt.map (λ rest. c.trace ∷ rest) (gather bs store)
]

-- The rest of `print_internal`, which follows the copied pointers without the mutex: other threads
-- may have called anything since the copy. The trace is not frozen any more afterwards.
unfoldable pub print_copied : List ℕ → Threads → Option ((ℕ × List Line) × Threads)
print_copied pointers s = elim (gather pointers s.store) [
  | none ↦ none
  | some bs ↦ Opt.map (λ out. (out, record s { frozen = false })) (print_internal bs)
]
