-- ===== src/Sim/PifoNaive/Pulse.antt =====
-- The draining mode of model/qsim.cc over a `PIFO_Naive` queue.
use homa_nic.Prelude.{
  ℕ, zero, suc, ◌+◌, ◌≤◌, ◌<◌, ◌^◌, ◌≡◌, refl, arith, Bool, true, false, ◌&&◌, not, ltb, inl, inr,
  Bool-cases, Returns, Never, Ends->>=, Ends-map,
}
use homa_nic.Prelude.Int.{pos, ◌<ℤ◌, to_u32, eq_ℤ}
use homa_nic.Sim.Entry.{Entry}
use homa_nic.Sim.Multiset.{count}
use homa_nic.Sim.Base.{Base, Object, fresh, gather_stats, set_pulses, add64, departure}
use homa_nic.Sim.Qsim.{Process, begin_drain, end_drain, pulse, pulse_loop}
use homa_nic.Sim.PifoNaive.{Own, pifo_naive, new_pifo, step}
use homa_nic.Sim.PifoNaive.System.{InSystem}
use homa_nic.Sim.PifoNaive.Events.{Kept, departure-Kept}
use homa_nic.Sim.PifoNaive.Run.{Q, Advanced, step-Kept, deliver-Advanced}

-- Whether statistics are gathered is nothing to the messages.
pub gstats-InSystem :
    (on : Bool) (b : Base) (o : Own)
    → InSystem false b o
    → InSystem false (record b { gstats = on }) o
gstats-InSystem on b o v = record {
  places = v.places;
  same = v.same;
  distinct = v.distinct;
  below = v.below;
  unsent = v.unsent;
  active = v.active;
  counted = λ a. absurd (cc);
  books = λ a. absurd (cc);
  at_most = v.at_most;
  word = v.word;
}

-- The queue of a draining run, before its first round.
abbrev pub pulse_start : Entry → ℕ → Object Own
pulse_start held duration = set_pulses duration (gather_stats false (new_pifo held))

pub pulse_start-InSystem :
    (held : Entry) (duration : ℕ)
    → InSystem false (pulse_start held duration).base (pulse_start held duration).own
unfolding new_pifo fresh count
pulse_start-InSystem held duration = record {
  places = record { scan_in = tt; unsorted = tt };
  same = λ p. refl;
  distinct = λ n. omega arith;
  below = refl;
  unsent = refl;
  active = refl;
  counted = λ a. absurd (cc);
  books = λ a. absurd (cc);
  at_most = omega arith;
  word = omega arith;
}

pub id-pulse_start : (held : Entry) (duration : ℕ) → (pulse_start held duration).base.id ≡ 0
unfolding new_pifo fresh
id-pulse_start held duration = refl

module _ (R : Process) (positive : (k : ℕ) → pos 0 <ℤ R.chunks k) (n : ℕ) (h : 8 ≤ n)
    (k : n < 2 ^ 31) where
  begin_drain-Advanced :
      (max : ℕ) (b : Base) (r : Q false R positive n h k)
      → Advanced false R positive n h k 0 b r
      → Advanced false R positive n h k 0 b (begin_drain R (pifo_naive (pos n)) max r)
  unfolding begin_drain
  begin_drain-Advanced max b r a =
      elim (Bool-cases (ltb max (to_u32 r.queue.own.active) && not r.drain)) [
        | inl p ↦ rw p (gstats-InSystem true r.queue.base r.queue.own a.0, a.1, a.2)
        | inr p ↦ rw p a
      ]

  end_drain-Advanced :
      (ts : ℕ) (b : Base) (r : Q false R positive n h k)
      → Advanced false R positive n h k 0 b r
      → Advanced false R positive n h k 0 b (end_drain R (pifo_naive (pos n)) ts r)
  unfolding end_drain
  end_drain-Advanced ts b r a = elim (Bool-cases (eq_ℤ r.queue.own.active (pos 0) && r.drain)) [
    | inl p ↦ rw p (gstats-InSystem false r.queue.base r.queue.own a.0, a.1, a.2)
    | inr p ↦ rw p a
  ]

  pulse-Advanced :
      (max ts : ℕ) (r : Q false R positive n h k)
      → InSystem false r.queue.base r.queue.own
      → pos 0 <ℤ r.next_length
      → suc r.queue.base.id < 2 ^ 64
      → Returns
          (Advanced false R positive n h k 1 r.queue.base)
          (pulse R (pifo_naive (pos n)) max ts r)
  unfolding pulse
  pulse-Advanced max ts r v l small =
      let b : Base = r.queue.base in
      Ends->>= Never (Kept false b) (Advanced false R positive n h k 1 b)
        (departure (pifo_naive (pos n)) ts r.queue) _ (departure-Kept (pos n) ts b r.queue.own v)
        (λ q d.
          let before : Q false R positive n h k =
            begin_drain R (pifo_naive (pos n)) max (record r { queue = q }) in
          let now : Q false R positive n h k = end_drain R (pifo_naive (pos n)) ts before in
          let a =
            end_drain-Advanced ts b before
              (begin_drain-Advanced max b (record r { queue = q }) (d.0, omega arith, l)) in
          Ends->>= Never (Advanced false R positive n h k 1 now.queue.base)
            (Advanced false R positive n h k 1 b) _ _
            (deliver-Advanced false R positive n h k
              (R.reached now.next_arrival ts && not now.drain) ts now.queue.base now a.0 refl a.2
              (omega (arith, a.1)))
            (λ t c.
              Ends->>= Never (Kept false t.queue.base) (Advanced false R positive n h k 1 b)
                (step (pos n) ts t.queue) _ (step-Kept false n h k ts t.queue.base t.queue.own c.0)
                (λ q' m. (m.0, omega (arith, a.1, c.1, m.1), c.2))))

  pub pulse_loop-Advanced :
      (fuel max duration ts : ℕ) (r : Q false R positive n h k)
      → InSystem false r.queue.base r.queue.own
      → pos 0 <ℤ r.next_length
      → r.queue.base.id + fuel < 2 ^ 64
      → Returns
          (Advanced false R positive n h k fuel r.queue.base)
          (pulse_loop R (pifo_naive (pos n)) fuel max duration ts r)
  unfolding pulse_loop
  pulse_loop-Advanced zero max duration ts r v l small = (v, omega arith, l)
  pulse_loop-Advanced (suc fuel) max duration ts r v l small =
      elim (Bool-cases (ltb r.pulses duration)) [
        | inr p ↦ rw (p, pulse_loop) (v, omega arith, l)
        | inl p ↦
            rw (p, pulse_loop)
              (Ends->>= Never (Advanced false R positive n h k 1 r.queue.base)
                (Advanced false R positive n h k (suc fuel) r.queue.base)
                (pulse R (pifo_naive (pos n)) max ts r) _
                (pulse-Advanced max ts r v l (omega arith))
                (λ t a.
                  Ends-map Never _ (Advanced false R positive n h k (suc fuel) r.queue.base)
                    (pulse_loop R (pifo_naive (pos n)) fuel max duration (add64 ts 1) t)
                    (λ u m. (m.0, omega (arith, a.1, m.1), m.2))
                    (pulse_loop-Advanced fuel max duration (add64 ts 1) t a.0 a.2
                      (omega (arith, a.1, small)))))
      ]
