-- ===== src/Sim/Examples.antt =====
-- The simulator's theorems at concrete inputs, and tests of its queues.
use homa_nic.Prelude.{ℕ, ◌+◌, ◌≤◌, ◌≡◌, refl, true, false, leb, List, [], ◌∷◌, length, arith, ◌==◌}
use homa_nic.Prelude.{Returns, Ends, out_of_bounds, err, replicate}
use homa_nic.Prelude.Int.{pos}
use homa_nic.Sim.Entry.{Entry, less}
use homa_nic.Sim.Multiset.{SameEntries, count, offset}
use homa_nic.Sim.Base.{Base, arrival, fresh}
use homa_nic.Sim.Qsim.{Process, start, loop, slot, snapshot_loop}
use homa_nic.Sim.Ideal.{ideal}
use homa_nic.Sim.Ideal.Invariant.{IsValid, Books}
use homa_nic.Sim.Ideal.Drain.{work, drain_completes}
use homa_nic.Sim.Base.Account.{SameQuality}
use homa_nic.Sim.Ideal.Run.{
  new_queue, new_queue-IsValid, new_queue-Books, Reached, slot-Returns, run_exact,
}
use homa_nic.Sim.Ideal.Service.{backlog, arrival_overflow}
use homa_nic.Sim.PifoNaive
use homa_nic.Sim.PifoNaive.{pifo_naive}
use homa_nic.Sim.PifoNaive.Run.{run_conserves}
use homa_nic.Sim.PifoNaive.Contents
use homa_nic.Sim.PifoNaive.Contents.{contents}
use homa_nic.Sim.PifoNaive.Step.{SameBase, step-conserves}

-- A message of 30 chunks every other slot.
abbrev demo : Process
demo = record {
  Time = ℕ;
  gap = λ k. 2;
  chunks = λ k. pos 30;
  add = λ a b. a + b;
  of_slot = λ t. t;
  reached = λ t ts. leb t ts;
}

slot-Returns_example :
    Returns
      (Reached demo (λ k. omega arith) new_queue)
      (slot demo ideal 7 (start demo ideal new_queue))
unfolding new_queue fresh start
slot-Returns_example =
    slot-Returns demo (λ k. omega arith) 7 (start demo ideal new_queue) new_queue-IsValid
      new_queue-Books (omega arith) (omega arith) (omega arith)

run_exact_example :
    Ends
      (λ e. e ≡ out_of_bounds)
      (λ t.
        (t.queue.base.gqueue ≡ t.queue.own)
        × (t.queue.base.simstats.pktinacc ≡ 0)
        × (t.queue.base.simstats.underflow ≡ 0)
        × (t.queue.base.violations ≡ [])
        × (t.queue.base.simstats.comps + length t.queue.own ≡ t.queue.base.id))
      (loop demo ideal 40 1 0 (start demo ideal new_queue))
run_exact_example = run_exact demo (λ k. omega arith) 40 1 (omega arith)

abbrev message : ℕ → ℕ → Entry
message n left = record { ts = 0; id = n; length = pos 60; remaining = pos left; taint = false }

-- Two messages in a queue.
abbrev two : Base
two = record fresh { id = 2; gqueue = message 1 10 ∷ message 0 60 ∷ [] }

two-IsValid : IsValid two (message 1 10 ∷ message 0 60 ∷ [])
unfolding fresh less
two-IsValid = record {
  same = refl;
  sorted = ((refl, tt), (tt, tt));
  distinct = omega arith;
  below = omega arith;
  unsent = omega arith;
  slots = refl;
  word = omega arith;
}

two-Books : Books two (message 1 10 ∷ message 0 60 ∷ [])
unfolding fresh
two-Books = (refl, refl)

work-two : work two (message 1 10 ∷ message 0 60 ∷ []) ≤ 71
unfolding fresh work backlog
work-two = omega arith

drain_completes_example :
    Returns
      (λ t.
        (t.own ≡ []) × (t.base.gqueue ≡ []) × SameQuality two t.base × (t.base.simstats.comps ≡ 2))
      (snapshot_loop ideal 71 5 (record { base = two; own = message 1 10 ∷ message 0 60 ∷ [] }))
drain_completes_example =
    drain_completes 71 5 two (message 1 10 ∷ message 0 60 ∷ []) two-IsValid (omega arith)
      (omega arith) two-Books work-two

-- A queue with an entry under way and one out of place.
abbrev busy_pifo : PifoNaive.Own
busy_pifo = record {
  hwqueue = message 1 10 ∷ [];
  backing = (message 2 20, true) ∷ (message 3 5, false) ∷ [];
  held = message 4 30;
  scan = pos 1;
  firstunsort = pos 1;
  active = pos 4;
}

busy_pifo-IsValid : Contents.IsValid busy_pifo
busy_pifo-IsValid = record { scan_in = omega arith; unsorted = refl }

step-conserves_example :
    Returns
      (λ t.
        Contents.IsValid t.own
        × SameEntries (contents t.own) (contents busy_pifo)
        × (t.own.active ≡ pos 4)
        × SameBase two t.base)
      (PifoNaive.step (pos 16) 9 (record { base = two; own = busy_pifo }))
step-conserves_example =
    step-conserves 16 9 (record { base = two; own = busy_pifo }) (omega arith) (omega arith)
      busy_pifo-IsValid

run_conserves_example :
    Returns
      (λ t.
        SameEntries t.queue.base.gqueue (contents t.queue.own)
        × (t.queue.own.active ≡ pos (length t.queue.base.gqueue))
        × ((i : ℕ) → count (λ e. e.id == i) t.queue.base.gqueue ≤ 1)
        × (t.queue.base.simstats.comps + length t.queue.base.gqueue ≡ t.queue.base.id))
      (loop demo
        (pifo_naive (pos 16))
        40
        1
        0
        (start demo (pifo_naive (pos 16)) (PifoNaive.new_pifo (message 9 9))))
run_conserves_example =
    run_conserves demo (λ k. omega arith) 16 (omega arith) (omega arith) (message 9 9) 40 1
      (omega arith)

-- 1024 messages that come before a new one of the same length.
abbrev crowd : List Entry
crowd = replicate 1024 (message 0 60)

offset-crowd :
    offset (record { ts = 5; id = 2; length = pos 60; remaining = pos 60; taint = false }) crowd
    ≡ 1024
unfolding offset less
offset-crowd = refl

two-slots : length two.slotstats ≡ 1024
unfolding fresh
two-slots = refl

arrival_overflow_example :
    arrival ideal 5 (pos 60) (record { base = two; own = crowd }) ≡ err out_of_bounds
arrival_overflow_example =
    arrival_overflow 5 (pos 60) two crowd two-slots (omega arith) (omega (arith, offset-crowd))
