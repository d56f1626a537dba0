-- ===== src/Sim/Idle.antt =====
-- The draining mode of model/qsim.cc with the `max` that it has when the option is not given.
use homa_nic.Prelude.{
  ℕ, zero, suc, ◌-◌, ◌^◌, ◌≡◌, arith, Bool, true, false, ◌&&◌, not, ltb, if◌then◌else◌, inl, inr,
  Bool-cases, ok, Ends, Ends->>=, Ends-Any, Any,
}
use homa_nic.Prelude.Int.{ℤ, pos, eq_ℤ, to_u32}
use homa_nic.Sim.Base.{Discipline, arrival, departure, add64}
use homa_nic.Sim.Qsim.{Process, Run, deliver, begin_drain, end_drain, pulse, pulse_loop}

-- `uint32_t max = -1`.
abbrev pub default_max : ℕ
default_max = 2 ^ 32 - 1

below_max : (z : ℤ) → ltb default_max (to_u32 z) ≡ false
unfolding to_u32
below_max z = ground arith

module _ (R : Process) {S : Type 0} (d : Discipline S) where
  -- No pulse has begun.
  abbrev pub Idle : Run R.Time S → Type 0
  Idle t = (t.pulses ≡ 0) × (t.drain ≡ false)

  deliver-Idle :
      (now : Bool) (ts : ℕ) (r : Run R.Time S)
      → Idle r
      → Ends Any Idle (if now then deliver R d ts r else ok r)
  unfolding deliver
  deliver-Idle false ts r i = i
  deliver-Idle true ts r i = elim (Bool-cases (eq_ℤ r.next_length (pos 0))) [
    | inl p ↦ rw p tt
    | inr p ↦ rw p (
        Ends->>= Any (λ q. Unit {0}) Idle (arrival d ts r.next_length r.queue) _
          (Ends-Any (arrival d ts r.next_length r.queue)) (λ q u. i))
  ]

  begin_drain-Idle : (r : Run R.Time S) → Idle r → Idle (begin_drain R d default_max r)
  unfolding begin_drain
  begin_drain-Idle r i = rw (below_max (d.size r.queue.own)) i

  end_drain-Idle : (ts : ℕ) (r : Run R.Time S) → Idle r → Idle (end_drain R d ts r)
  unfolding end_drain
  end_drain-Idle ts r i = elim (Bool-cases (eq_ℤ (d.size r.queue.own) (pos 0) && r.drain)) [
    | inl p ↦ absurd (ground (arith, p, i.1))
    | inr p ↦ rw p i
  ]

  pulse-Idle : (ts : ℕ) (r : Run R.Time S) → Idle r → Ends Any Idle (pulse R d default_max ts r)
  unfolding pulse
  pulse-Idle ts r i =
      Ends->>= Any (λ q. Unit {0}) Idle (departure d ts r.queue) _
        (Ends-Any (departure d ts r.queue))
        (λ q u.
          let before : Run R.Time S = begin_drain R d default_max (record r { queue = q }) in
          let now : Run R.Time S = end_drain R d ts before in
          Ends->>= Any Idle Idle _ _
            (deliver-Idle (R.reached now.next_arrival ts && not now.drain) ts now
              (end_drain-Idle ts before (begin_drain-Idle (record r { queue = q }) i)))
            (λ t j.
              Ends->>= Any (λ q. Unit {0}) Idle (d.step ts t.queue) _ (Ends-Any (d.step ts t.queue))
                (λ q' u. j)))

  -- However many rounds it runs for.
  pub pulse_loop-Idle :
      (fuel duration ts : ℕ) (r : Run R.Time S)
      → Idle r
      → Ends Any Idle (pulse_loop R d fuel default_max duration ts r)
  unfolding pulse_loop
  pulse_loop-Idle zero duration ts r i = i
  pulse_loop-Idle (suc fuel) duration ts r i = elim (Bool-cases (ltb r.pulses duration)) [
    | inr p ↦ rw (p, pulse_loop) i
    | inl p ↦
        rw (p, pulse_loop)
          (Ends->>= Any Idle Idle (pulse R d default_max ts r) _ (pulse-Idle ts r i)
            (λ t j. pulse_loop-Idle fuel duration (add64 ts 1) t j))
  ]
