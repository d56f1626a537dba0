-- ===== src/Sim/Main.antt =====
-- model/qsim.cc: `main`, from its options to the end of a simulation. What it takes from libraries
-- is the parameter `World`; `getopt_long` gives the list of options with their arguments.
pub mod Max
pub mod Kinds
pub mod Runs
mod Examples
use homa_nic.Prelude.{
  ℕ, zero, suc, ◌≡◌, Bool, true, false, Option, none, some, List, [], ◌∷◌, if◌then◌else◌,
}
use homa_nic.Prelude.{Result, ok, err, aborted, ◌>>=◌}
use homa_nic.Prelude.Int.{ℤ, pos, to_u32, to_u64}
use text.Mathlib.Text.{◌==◌ as str_eq}
use Prim.Native.String.{String}
use homa_nic.Dist.Generator.{Generator, Settings, construct}
use homa_nic.Dist.Draw.{draw_chunks}
use homa_nic.Sim.Entry.{Entry}
use homa_nic.Sim.Base.{Object, gather_stats, set_pulses}
use homa_nic.Sim.Qsim.{Process, Run, start, loop, pulse_loop, snapshot_loop}
use homa_nic.Sim.Idle.{default_max}
use homa_nic.Sim.Ideal
use homa_nic.Sim.Ideal.{ideal}
use homa_nic.Sim.Ideal.Run.{new_queue}
use homa_nic.Sim.PifoNaive
use homa_nic.Sim.PifoNaive.{pifo_naive, new_pifo}

-- The conversions of texts (`stoi` throws on a text that is no number), the random draws, and the
-- arithmetic of `double`: `gap mean util k` is the k-th draw from the exponential distribution whose
-- mean is `mean / util`, and `fraction k` the k-th draw of the generator.
pub record World : Type 1 where
  pub Time : Type 0
  pub Real : Type 0
  pub stoi : String → Option ℤ
  pub strtol : String → ℤ × Bool
  pub strtod : String → Real
  pub gap : ℤ → Real → ℕ → Time
  pub fraction : ℕ → ℕ
  pub add : Time → Time → Time
  pub of_slot : ℕ → Time
  pub reached : Time → ℕ → Bool

-- An option, and any other letter.
pub data Flag : Type 0 where
  p_flag q_flag w_flag u_flag c_flag t_flag s_flag m_flag other_flag : Flag

-- The local variables that options set.
pub record Options (Real : Type 0) : Type 0 where
  pub priorities : ℤ
  pub qtype : String
  pub wfile : String
  pub util : Real
  pub duration : ℕ
  pub tfile : String
  pub sfile : String
  pub max : ℕ

-- `util` and `duration` have no initial value: they hold what is on the stack.
abbrev pub defaults : {Real : Type 0} → Real → ℕ → Options Real
defaults util duration = record {
  priorities = pos 0;
  qtype = "";
  wfile = "";
  util = util;
  duration = duration;
  tfile = "";
  sfile = "";
  max = default_max;
}

-- `nmap[qtype]`. A name that the map does not have is added to it with the value 0, the ideal queue.
pub data QueueType : Type 0 where
  ideal_type pifo_type snapshot_type pulse_type : QueueType

unfoldable pub nmap : String → QueueType
nmap qtype =
    if str_eq qtype "pifo_naive"
    then pifo_type
    else if str_eq qtype "pifo_naive_snapshot"
    then snapshot_type
    else if str_eq qtype "pifo_insertion_pulse"
    then pulse_type
    else ideal_type

-- `dist_point_gen wk(wfile.c_str(), 1000000, 0)`; the ratio is the default 1.2.
abbrev pub qsim_settings : Settings
qsim_settings = record { max_length = 1000000; min_bucket_frac = 0; ratio_num = 12; ratio_den = 10 }

-- How a simulation of each type ends.
pub data Simulation (Time : Type 0) : Type 0 where
  ideal_run : Run Time Ideal.Own → Simulation Time
  pifo_run : Run Time PifoNaive.Own → Simulation Time
  pulse_run : Run Time PifoNaive.Own → Simulation Time
  snapshot_run : Object PifoNaive.Own → Simulation Time

-- `std::ceil(wk(gen)/64.0)`. A draw that aborts is 0, at which the assertion stops the loops.
abbrev pub length_of : Result ℤ → ℤ
length_of (ok c) = c
length_of (err e) = pos 0

module _ (W : World) where
  open W use {Time, Real}

  -- One turn of the `switch`.
  unfoldable pub set_option : Flag → String → Options Real → Result (Options Real)
  set_option p_flag arg o = elim (W.stoi arg) [
    | none ↦ err aborted
    | some n ↦ ok (record o { priorities = n })
  ]
  set_option q_flag arg o = ok (record o { qtype = arg })
  set_option w_flag arg o = ok (record o { wfile = arg })
  set_option u_flag arg o = ok (record o { util = W.strtod arg })
  set_option c_flag arg o = ok (record o { duration = to_u64 (W.strtol arg).0 })
  set_option t_flag arg o = ok (record o { tfile = arg })
  set_option s_flag arg o = ok (record o { sfile = arg })
  set_option m_flag arg o = elim (W.stoi arg) [
    | none ↦ err aborted
    | some n ↦ ok (record o { max = to_u32 n })
  ]
  set_option other_flag arg o = err aborted

  unfoldable pub parse_options : List (Flag × String) → Options Real → Result (Options Real)
  parse_options [] o = ok o
  parse_options ((flag, arg) ∷ args) o = set_option flag arg o >>= parse_options args

  -- The draws and the arithmetic of one simulation.
  abbrev pub process : Real → Generator → Process
  process util wk = record {
    Time = Time;
    gap = W.gap wk.dist_mean util;
    chunks = λ k. length_of (draw_chunks (W.fraction k) wk);
    add = W.add;
    of_slot = W.of_slot;
    reached = W.reached;
  }

  -- The queue and the loop of a type. `held` is the member `insert` of a new PIFO_Naive, which is
  -- not read before it is set; `fuel` bounds the rounds.
  unfoldable pub simulate :
      ℕ → Entry → Options Real → Generator → QueueType → Result (Simulation Time)
  simulate fuel held o wk ideal_type =
      let R : Process = process o.util wk in
      loop R ideal fuel o.duration 0 (start R ideal (gather_stats true new_queue)) >>= λ t.
      ok (ideal_run t)
  simulate fuel held o wk pifo_type =
      let R : Process = process o.util wk in
      loop R (pifo_naive o.priorities) fuel o.duration 0
        (start R (pifo_naive o.priorities) (gather_stats true (new_pifo held)))
      >>= λ t. ok (pifo_run t)
  simulate fuel held o wk snapshot_type =
      snapshot_loop (pifo_naive o.priorities) fuel 0 (new_pifo held) >>= λ q. ok (snapshot_run q)
  simulate fuel held o wk pulse_type =
      let R : Process = process o.util wk in
      pulse_loop R (pifo_naive o.priorities) fuel o.max o.duration 0 (
        start R (pifo_naive o.priorities)
          (set_pulses o.duration (gather_stats false (new_pifo held))))
      >>= λ t. ok (pulse_run t)

  unfoldable pub main : Real → ℕ → Entry → ℕ → List (Flag × String) → Result (Simulation Time)
  main util duration held fuel args = do
    o ← parse_options args (defaults util duration)
    wk ← construct W.strtol o.wfile qsim_settings
    simulate fuel held o wk (nmap o.qtype)
