-- ===== src/Trace/Threads/Examples.antt =====
-- Two threads with objects, one of which leaves.
use homa_nic.Prelude.{
  ℕ, ◌<◌, arith, ◌≡◌, ◌↔◌, refl, none, some, List, [], ◌∷◌, get_elem?, ◌==◌, if◌then◌else◌,
}
use homa_nic.Prelude.Int.{◌-ℤ◌, ◌+ℤ◌}
use Prim.Native.String.{String}
use homa_nic.Trace.Buffer.{Event, Buffer}
use homa_nic.Trace.Threads.{
  Threads, no_threads, construct, destroy, trace_event, cleanup, cleanup_from, gather, freeze,
  copy_pointers, print_copied,
}
use homa_nic.Trace.Threads.Cleanup.{occurs}
use homa_nic.Trace.Threads.Printout.{print_race}
use homa_nic.Trace.Threads.Consistent.{Object, refs, Runs, begin, make, leave}
use homa_nic.Trace.Threads.Steps.{with_buffer, construct_new}
use homa_nic.Trace.Threads.Safety.{no_dangling, cleanup_exact, same_buffer}

abbrev main_only : Threads
main_only = with_buffer 0 "main" 5 no_threads

abbrev with_worker : Threads
with_worker = with_buffer 1 "worker" 7 main_only

abbrev main_object : Object
main_object = record { thread = 0; buffer = 0 }

abbrev worker_object : Object
worker_object = record { thread = 1; buffer = 1 }

abbrev to_worker : Runs with_worker (worker_object ∷ main_object ∷ [])
to_worker =
    make 1 "worker" 7 (make 0 "main" 5 begin (construct_new 0 "main" 5 no_threads refl))
      (construct_new 1 "worker" 7 main_only refl)

no_dangling_example :
    ((t : ℕ) (name : String) (time : ℕ)
      → (b : ℕ) × (s' : Threads) × (construct t name time with_worker ≡ some (b, s')))
    × ((i : ℕ) (o : Object)
        → get_elem? (worker_object ∷ main_object ∷ []) i ≡ some o
        → (s' : Threads) × (destroy o.thread o.buffer with_worker ≡ some s'))
    × ((i : ℕ) (o : Object) (e : Event)
        → get_elem? (worker_object ∷ main_object ∷ []) i ≡ some o
        → (s' : Threads) × (trace_event o.thread e with_worker ≡ some s'))
    × ((s' : Threads) × (cleanup with_worker ≡ some s'))
no_dangling_example = no_dangling with_worker (worker_object ∷ main_object ∷ []) to_worker

-- The worker's object is destroyed.
abbrev gone : (s' : Threads) × (destroy 1 1 with_worker ≡ some s')
gone = (no_dangling with_worker (worker_object ∷ main_object ∷ []) to_worker).1 0 worker_object refl

abbrev to_gone : Runs gone.0 (main_object ∷ [])
to_gone = leave 0 to_worker refl gone.1

cleanup_exact_example :
    (s' : Threads) × (cleanup gone.0 ≡ some s')
    × ((b : ℕ) → s'.store b ≡ (if refs b (main_object ∷ []) == 0 then none else gone.0.store b))
cleanup_exact_example = cleanup_exact gone.0 (main_object ∷ []) to_gone

same_buffer_example :
    (worker_object.thread ≡ main_object.thread) ↔ (worker_object.buffer ≡ main_object.buffer)
same_buffer_example =
    same_buffer with_worker (worker_object ∷ main_object ∷ []) 0 1 worker_object main_object
      to_worker refl refl

-- The worker's object is destroyed, its buffer is still listed, and `cleanup` deletes it.
abbrev left : Threads
left = elim (destroy 1 1 with_worker) [ none ↦ with_worker | some s ↦ s ]

left_is : destroy 1 1 with_worker ≡ some left
unfolding destroy
left_is = refl

abbrev tidied : Threads
tidied = elim (cleanup (copy_pointers left).1) [ none ↦ left | some s ↦ s ]

tidied_is : cleanup (copy_pointers left).1 ≡ some tidied
unfolding cleanup cleanup_from copy_pointers freeze destroy ◌-ℤ◌ ◌+ℤ◌
tidied_is = refl

listed : 0 < occurs 1 left.thread_buffers
unfolding destroy
listed = omega arith

print_race_example :
    ((bs : List Buffer) × (gather (copy_pointers left).0 (copy_pointers left).1.store ≡ some bs))
    × (print_copied (copy_pointers left).0 tidied ≡ none)
print_race_example =
    print_race left tidied (main_object ∷ []) 1 (leave 0 to_worker refl left_is) listed refl
      tidied_is
