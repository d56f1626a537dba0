-- ===== src/Sim/Main/Runs.antt =====
-- How the simulations of model/qsim.cc end: the command line, the workload, the queue and the loop
-- together.
use homa_nic.Prelude.{ℕ, ◌≤◌, ◌<◌, ◌^◌, ◌≡◌, refl, arith, true, false, not, ◌&&◌, ltb, List, All}
use homa_nic.Prelude.{Fault, ok, Ends, Returns, Never, Any, Ends->>=, Ends-map, Ends-of-Returns}
use homa_nic.Prelude.Int.{pos, eq_ℤ, to_i32}
use Prim.Native.String.{String}
use homa_nic.Dist.Point.{one}
use homa_nic.Dist.Construct.{IsBuiltin}
use homa_nic.Dist.Generator.{Generator, no_limit, construct}
use homa_nic.Dist.Draw.{Usable, construct-Usable}
use homa_nic.Sim.Entry.{Entry}
use homa_nic.Sim.Qsim.{Process, start}
use homa_nic.Sim.Idle.{Idle, pulse_loop-Idle}
use homa_nic.Sim.PifoNaive.{pifo_naive}
use homa_nic.Sim.PifoNaive.Pulse.{pulse_start}
use homa_nic.Sim.Main.{
  World, Flag, Options, defaults, pulse_type, nmap, qsim_settings, Simulation, parse_options,
  process, simulate, main,
}
use homa_nic.Sim.Main.Max.{is_max, max_kept}
use homa_nic.Sim.Main.Kinds.{Accounted, Sized, Allowed, Pulsed, Unended, typed, pulse-Ends}

positive_ltb : (n : ℕ) → 0 < n → ltb 0 n ≡ true
positive_ltb n h = ground arith

module _ (W : World) (fractions : (k : ℕ) → W.fraction k ≤ one) (held : Entry) (fuel : ℕ)
    (small : fuel < 2 ^ 31) where
  open W use {Time, Real}

  -- The workload is constructed, then the simulation runs.
  main-Ends :
      (F : Fault → Type 0) (P : Simulation Time → Type 0) (util : Real) (duration : ℕ)
      (args : List (Flag × String)) (o : Options Real)
      → parse_options W args (defaults util duration) ≡ ok o
      → IsBuiltin o.wfile
      → (not (eq_ℤ (to_i32 (W.strtol o.wfile).0) (pos 0)) && (W.strtol o.wfile).1) ≡ false
      → ((wk : Generator)
          → Usable (no_limit qsim_settings).max_length wk.dist_points
          → Ends F P (simulate W fuel held o wk (nmap o.qtype)))
      → Ends F P (main W util duration held fuel args)
  unfolding main
  main-Ends F P util duration args o p b t k =
      let M : ℕ = (no_limit qsim_settings).max_length in
      rw p (
        Ends->>= F (λ wk. Usable M wk.dist_points) P (construct W.strtol o.wfile qsim_settings) _
          (Ends-of-Returns F (λ wk. Usable M wk.dist_points)
            (construct W.strtol o.wfile qsim_settings)
            (construct-Usable W.strtol o.wfile qsim_settings b t))
          k)

  -- The options, the workload, the queue and the loop together. When the options are accepted and
  -- name a built-in workload that `strtol` does not read as a number, each random fraction is at
  -- most 1.0, and the type is the ideal queue (or no type that the program knows) or `-p` gives at
  -- least 8 priorities, a run of fewer than 2 ^ 31 rounds ends without a fault, unless its queue is
  -- the ideal one and it goes out of bounds of `slotstats`. At the end of a run of the ideal queue,
  -- `gqueue` and `hwqueue` hold the same messages in the same order, no inaccuracy, wasted slot or
  -- violation is counted, and each message that arrived is complete or waits. At the end of the
  -- others `gqueue` holds the messages that are in the queue, each as often, `active` is their
  -- number and no two have the same id; each message that arrived is complete or among them. In a
  -- draining run, which counts completions only at times, the complete messages and those in the
  -- queue are at most the ones that arrived. A snapshot run ends with no message.
  pub main_safe :
      (util : Real) (duration : ℕ) (args : List (Flag × String)) (o : Options Real)
      → parse_options W args (defaults util duration) ≡ ok o
      → IsBuiltin o.wfile
      → (not (eq_ℤ (to_i32 (W.strtol o.wfile).0) (pos 0)) && (W.strtol o.wfile).1) ≡ false
      → Sized o
      → Ends (Allowed o) Accounted (main W util duration held fuel args)
  main_safe util duration args o p b t z =
      main-Ends (Allowed o) Accounted util duration args o p b t (λ wk a.
        typed W fractions held fuel small o (no_limit qsim_settings).max_length wk (nmap o.qtype) a
          refl z)

  -- A `pifo_insertion_pulse` run without `-m`, of one message or more and of at least 8 priorities,
  -- never completes a pulse, and begins none: whatever the number of rounds, under 2 ^ 31, `pulses`
  -- is 0 and the test of the loop still holds. The size of the queue, as a `uint32_t`, is never
  -- over the initial `max`, which is 2 ^ 32 - 1.
  pub pulse_never_ends :
      (util : Real) (duration : ℕ) (args : List (Flag × String)) (o : Options Real) (n : ℕ)
      → All (λ a. is_max a.0 ≡ false) args
      → parse_options W args (defaults util duration) ≡ ok o
      → IsBuiltin o.wfile
      → (not (eq_ℤ (to_i32 (W.strtol o.wfile).0) (pos 0)) && (W.strtol o.wfile).1) ≡ false
      → nmap o.qtype ≡ pulse_type
      → o.priorities ≡ pos n
      → 8 ≤ n
      → n < 2 ^ 31
      → 0 < o.duration
      → Returns
          (λ s. Accounted s × Pulsed (Unended o.duration) s)
          (main W util duration held fuel args)
  unfolding start
  pulse_never_ends util duration args o n f p b t y e h k l =
      main-Ends Never (λ s. Accounted s × Pulsed (Unended o.duration) s) util duration args o p b t
        (λ wk a.
          let R : Process = process W o.util wk in
          rw y (
            pulse-Ends W fractions held fuel small (Unended o.duration) o
              (no_limit qsim_settings).max_length n wk a e h k
              (rw (max_kept W util duration args o f p) (
                Ends-map Any (Idle R (pifo_naive (pos n))) (Unended o.duration) _
                  (λ r i. (i.0, i.1, rw i.0 (positive_ltb o.duration l)))
                  (pulse_loop-Idle R (pifo_naive (pos n)) fuel o.duration 0
                    (start R (pifo_naive (pos n)) (pulse_start held o.duration)) (refl, refl))))))
