-- ===== src/Sim/Main/Examples.antt =====
-- The command line of model/qsim.cc at concrete options.
use homa_nic.Prelude.{
  ℕ, ◌+◌, ◌≤◌, ◌≡◌, refl, arith, leb, Bool, true, false, List, [], ◌∷◌, Option, none, some, inl,
  inr, if◌then◌else◌,
}
use homa_nic.Prelude.{err, aborted, Ends, Returns}
use homa_nic.Prelude.Int.{ℤ, pos, to_u64, to_i32}
use text.Mathlib.Text.{◌==◌ as str_eq}
use Prim.Native.String.{String}
use homa_nic.Dist.Point.{one}
use homa_nic.Sim.Entry.{Entry}
use homa_nic.Sim.Idle.{default_max}
use homa_nic.Sim.Main.{
  World, set_option, Flag, p_flag, q_flag, w_flag, c_flag, Options, defaults, nmap, parse_options,
  main, ideal_type,
}
use homa_nic.Sim.Main.Kinds.{Accounted, Allowed, Pulsed, Unended}
use homa_nic.Sim.Main.Runs.{main_safe, pulse_never_ends}

-- Three texts that are numbers.
abbrev number : String → Option ℤ
number text =
    if str_eq text "8" then some (pos 8) else if str_eq text "2" then some (pos 2) else none

abbrev read_number : String → ℤ × Bool
read_number text = if str_eq text "2" then (pos 2, true) else (pos 0, false)

-- A message each 20 slots, drawn at the end of the distribution.
abbrev even_world : World
even_world = record {
  Time = ℕ;
  Real = ℕ;
  stoi = number;
  strtol = read_number;
  strtod = λ text. 1;
  gap = λ mean util k. 20;
  fraction = λ k. one;
  add = λ a b. a + b;
  of_slot = λ ts. ts;
  reached = λ t ts. leb t ts;
}

abbrev even_fractions : (k : ℕ) → even_world.fraction k ≤ one
even_fractions k = omega arith

abbrev unset : Entry
unset = record { ts = 0; id = 0; length = pos 0; remaining = pos 0; taint = false }

abbrev sorted_args : List (Flag × String)
sorted_args = (q_flag, "pifo_naive") ∷ (w_flag, "w1") ∷ (p_flag, "8") ∷ (c_flag, "2") ∷ []

abbrev pulse_args : List (Flag × String)
pulse_args = (q_flag, "pifo_insertion_pulse") ∷ (w_flag, "w1") ∷ (p_flag, "8") ∷ (c_flag, "2") ∷ []

abbrev options : String → Options ℕ
options qtype = record {
  priorities = pos 8;
  qtype = qtype;
  wfile = "w1";
  util = 0;
  duration = 2;
  tfile = "";
  sfile = "";
  max = default_max;
}

-- A number that is none stops the program.
bad_number : parse_options even_world ((p_flag, "eight") ∷ []) (defaults 0 0) ≡ err aborted
unfolding parse_options set_option
bad_number = refl

-- A name of no type is the ideal queue.
unknown_type : nmap "pifo" ≡ ideal_type
unfolding nmap
unknown_type = refl

main_safe_example :
    Ends (Allowed (options "pifo_naive")) Accounted (main even_world 0 0 unset 100 sorted_args)
unfolding parse_options set_option nmap to_u64 to_i32
main_safe_example =
    main_safe even_world even_fractions unset 100 (omega arith) 0 0 sorted_args
      (options "pifo_naive") refl (inl refl) refl (inr (8, refl, omega arith, omega arith))

pulse_never_ends_example :
    Returns (λ s. Accounted s × Pulsed (Unended 2) s) (main even_world 0 0 unset 100 pulse_args)
unfolding parse_options set_option nmap to_u64 to_i32
pulse_never_ends_example =
    pulse_never_ends even_world even_fractions unset 100 (omega arith) 0 0 pulse_args
      (options "pifo_insertion_pulse") 8 (refl, (refl, (refl, (refl, tt)))) refl (inl refl) refl
      refl refl (omega arith) (omega arith) (omega arith)
