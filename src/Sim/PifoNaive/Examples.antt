-- ===== src/Sim/PifoNaive/Examples.antt =====
-- The drains of a `PIFO_Naive` queue at concrete inputs.
use homa_nic.Prelude.{ℕ, ◌+◌, ◌≡◌, refl, Bool, true, false, leb, [], ◌∷◌, arith, Returns}
use homa_nic.Prelude.Int.{pos}
use homa_nic.Sim.Entry.{Entry}
use homa_nic.Sim.Multiset.{count}
use homa_nic.Sim.Base.{Base, fresh}
use homa_nic.Sim.Qsim.{Process, Run, pulse_loop, snapshot_loop}
use homa_nic.Sim.PifoNaive.{Own, pifo_naive, minus_one, empty}
use homa_nic.Sim.PifoNaive.System.{InSystem, overdue}
use homa_nic.Sim.PifoNaive.Drain.{too_long, pending, work}
use homa_nic.Sim.PifoNaive.Drain.Slots.{backlog_clears}
use homa_nic.Sim.PifoNaive.Drain.Ending.{Ended, Draining, drain_ends}
use homa_nic.Sim.Ideal.Service.{backlog}

-- A message of 30 chunks every other slot.
abbrev demo : Process
demo = record {
  Time = ℕ;
  gap = λ k. 2;
  chunks = λ k. pos 30;
  add = λ a b. a + b;
  of_slot = λ t. t;
  reached = λ t ts. leb t ts;
}

abbrev message : ℕ → ℕ → Entry
message n left = record { ts = 0; id = n; length = pos 60; remaining = pos left; taint = false }

-- A message in the sorted queue and one behind it.
abbrev two_base : Base
two_base = record fresh { id = 2; gqueue = message 0 30 ∷ message 1 40 ∷ [] }

abbrev two_own : Own
two_own = record {
  hwqueue = message 0 30 ∷ [];
  backing = (message 1 40, true) ∷ [];
  held = message 0 30;
  scan = minus_one;
  firstunsort = minus_one;
  active = pos 2;
}

two-InSystem : {all : Bool} → InSystem all two_base two_own
unfolding fresh count overdue
two-InSystem = record {
  places = record { scan_in = tt; unsorted = tt };
  same = λ p. omega arith;
  distinct = λ n. ground arith;
  below = refl;
  unsent = refl;
  active = refl;
  counted = λ a. refl;
  books = λ a. refl;
  at_most = omega arith;
  word = omega arith;
}

two-fits : count too_long two_base.gqueue ≡ 0
unfolding count too_long
two-fits = refl

two-work : work two_base two_own ≡ 71
unfolding work pending backlog fresh
two-work = refl

backlog_clears_example :
    Returns
      (λ t.
        (t.own.active ≡ pos 0) × (t.base.gqueue ≡ []) × (true ≡ true → t.base.simstats.comps ≡ 2))
      (snapshot_loop (pifo_naive (pos 16)) 71 5 (record { base = two_base; own = two_own }))
backlog_clears_example =
    backlog_clears true 16 (omega arith) (omega arith) 71 5 two_base two_own two-InSystem two-fits
      (omega (arith, two-work))

abbrev draining : Run ℕ Own
draining = record {
  queue = record { base = two_base; own = two_own };
  next_arrival = 7;
  next_length = pos 30;
  drawn = 4;
  drain = true;
  pulses = 3;
}

draining-Draining : Draining demo (λ k. omega arith) 16 (omega arith) (omega arith) draining
unfolding empty
draining-Draining = (two-InSystem, two-fits, refl, refl, omega arith)

drain_ends_example :
    Returns
      (Ended demo (λ k. omega arith) 16 (omega arith) (omega arith) 3)
      (pulse_loop demo (pifo_naive (pos 16)) 80 1 4 5 draining)
drain_ends_example =
    drain_ends demo (λ k. omega arith) 16 (omega arith) (omega arith) 80 1 5 draining
      draining-Draining (omega (arith, two-work)) (omega arith)
