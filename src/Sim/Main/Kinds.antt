-- ===== src/Sim/Main/Kinds.antt =====
-- The simulations of model/qsim.cc, one for each type of queue.
use homa_nic.Prelude.{
  ℕ, zero, suc, ◌+◌, ◌≤◌, ◌<◌, ◌^◌, ◌≡◌, refl, sym, subst, arith, true, false, ltb, ◌==◌, [],
  length, ◌⊎◌, inl, inr,
}
use homa_nic.Prelude.{
  Fault, Result, ok, err, out_of_bounds, Ends, Returns, Never, Any, Ends->>=, Ends-map, Ends-and,
  Ends-Any, Ends-of-Returns, Ends-faults,
}
use homa_nic.Prelude.Int.{ℤ, pos, ◌<ℤ◌}
use homa_nic.Dist.Point.{one}
use homa_nic.Dist.Generator.{Generator}
use homa_nic.Dist.Draw.{Usable, draw_chunks, draw_chunks-Returns, FitsIn, FitsIn}
use homa_nic.Sim.Entry.{Entry}
use homa_nic.Sim.Multiset.{count, SameEntries}
use homa_nic.Sim.Base.{Object, fresh, gather_stats}
use homa_nic.Sim.Qsim.{Process, Run, start, loop, pulse_loop, snapshot_loop}
use homa_nic.Sim.Ideal.{ideal}
use homa_nic.Sim.Ideal.Run.{new_queue, run_exact}
use homa_nic.Sim.PifoNaive
use homa_nic.Sim.PifoNaive.{pifo_naive, new_pifo}
use homa_nic.Sim.PifoNaive.Contents.{contents}
use homa_nic.Sim.PifoNaive.Run.{run_conserves, Advanced}
use homa_nic.Sim.PifoNaive.Pulse.{
  pulse_start, pulse_start-InSystem, id-pulse_start, pulse_loop-Advanced,
}
use homa_nic.Sim.Main.{
  World, Options, QueueType, ideal_type, pifo_type, snapshot_type, pulse_type, nmap, Simulation,
  ideal_run, pifo_run, pulse_run, snapshot_run, length_of, process, simulate,
}

-- What is true of a simulation that ends.
abbrev pub Accounted : {T : Type 0} → Simulation T → Type 0
Accounted (ideal_run t) =
    (t.queue.base.gqueue ≡ t.queue.own)
    × (t.queue.base.simstats.pktinacc ≡ 0)
    × (t.queue.base.simstats.underflow ≡ 0)
    × (t.queue.base.violations ≡ [])
    × (t.queue.base.simstats.comps + length t.queue.own ≡ t.queue.base.id)
Accounted (pifo_run t) =
    SameEntries t.queue.base.gqueue (contents t.queue.own)
    × (t.queue.own.active ≡ pos (length t.queue.base.gqueue))
    × ((i : ℕ) → count (λ e. e.id == i) t.queue.base.gqueue ≤ 1)
    × (t.queue.base.simstats.comps + length t.queue.base.gqueue ≡ t.queue.base.id)
Accounted (pulse_run t) =
    SameEntries t.queue.base.gqueue (contents t.queue.own)
    × (t.queue.own.active ≡ pos (length t.queue.base.gqueue))
    × ((i : ℕ) → count (λ e. e.id == i) t.queue.base.gqueue ≤ 1)
    × (t.queue.base.simstats.comps + length t.queue.base.gqueue ≤ t.queue.base.id)
Accounted (snapshot_run q) = (q.base.gqueue ≡ []) × (q.own.active ≡ pos 0)

-- An ideal queue, or a number of priorities that the sorted queue of `PIFO_Naive` needs.
abbrev pub Sized : {D : Type 0} → Options D → Type 0
Sized o = (nmap o.qtype ≡ ideal_type) ⊎ ((n : ℕ) × (o.priorities ≡ pos n) × (8 ≤ n) × (n < 2 ^ 31))

-- A draining run, of whose end `P` holds.
abbrev pub Pulsed : {T : Type 0} → (Run T PifoNaive.Own → Type 0) → Simulation T → Type 0
Pulsed P (pulse_run t) = P t
Pulsed P (ideal_run t) = ⊥
Pulsed P (pifo_run t) = ⊥
Pulsed P (snapshot_run q) = ⊥

-- No pulse has begun, and the loop goes on.
abbrev pub Unended : ℕ → {T : Type 0} → Run T PifoNaive.Own → Type 0
Unended duration t = (t.pulses ≡ 0) × (t.drain ≡ false) × (ltb t.pulses duration ≡ true)

-- `slotstats` has room for 1024 messages, and only the ideal queue counts by it.
abbrev pub Allowed : {D : Type 0} → Options D → Fault → Type 0
Allowed o e = (e ≡ out_of_bounds) × (nmap o.qtype ≡ ideal_type)

-- A draw is of one chunk or more.
drawn_positive : (m : ℕ) (c : Result ℤ) → Returns (FitsIn m) c → pos 0 <ℤ length_of c
drawn_positive m (ok c) h = ground (arith, h.0)
drawn_positive m (err e) h = absurd h

length_of-positive :
    (m u : ℕ) (wk : Generator)
    → Usable m wk.dist_points
    → u ≤ one
    → pos 0 <ℤ length_of (draw_chunks u wk)
length_of-positive m u wk a h = drawn_positive m (draw_chunks u wk) (draw_chunks-Returns m u wk a h)

gather-new :
    (held : Entry)
    → (gather_stats true (new_pifo held) ≡ new_pifo held)
      × (gather_stats true new_queue ≡ new_queue)
unfolding new_pifo new_queue fresh
gather-new held = (refl, refl)

snapshot_end :
    (n : ℤ) (held : Entry) (fuel : ℕ)
    → snapshot_loop (pifo_naive n) fuel 0 (new_pifo held) ≡ ok (new_pifo held)
unfolding snapshot_loop new_pifo pifo_naive PifoNaive.empty
snapshot_end n held zero = refl
snapshot_end n held (suc fuel) = refl

new_pifo-empty :
    (held : Entry) → ((new_pifo held).base.gqueue ≡ []) × ((new_pifo held).own.active ≡ pos 0)
unfolding new_pifo fresh
new_pifo-empty held = (refl, refl)

module _ (W : World) (fractions : (k : ℕ) → W.fraction k ≤ one) (held : Entry) (fuel : ℕ)
    (small : fuel < 2 ^ 31) where
  open W use {Time, Real}

  process-positive :
      (m : ℕ) (util : Real) (wk : Generator)
      → Usable m wk.dist_points
      → (k : ℕ) → pos 0 <ℤ (process W util wk).chunks k
  process-positive m util wk a k = length_of-positive m (W.fraction k) wk a (fractions k)

  -- A simulation of one type, with the number of priorities as an `int`.
  abbrev pub Good : Options Real → Result (Simulation Time) → Type 0
  Good o r = Ends (Allowed o) Accounted r

  ideal-Good :
      (o : Options Real) (m : ℕ) (wk : Generator)
      → Usable m wk.dist_points
      → nmap o.qtype ≡ ideal_type
      → Good o (simulate W fuel held o wk ideal_type)
  unfolding simulate
  ideal-Good o m wk a e =
      let R : Process = process W o.util wk in
      rw ((gather-new held).1) (
        Ends->>= (Allowed o) (λ t. Accounted (ideal_run t)) Accounted
          (loop R ideal fuel o.duration 0 (start R ideal new_queue)) (λ t. ok (ideal_run t))
          (Ends-faults (λ w. w ≡ out_of_bounds) (Allowed o) (λ t. Accounted (ideal_run t))
            (loop R ideal fuel o.duration 0 (start R ideal new_queue)) (λ w b. (b, e))
            (run_exact R (process-positive m o.util wk a) fuel o.duration (omega arith)))
          (λ t h. h))

  pifo-Good :
      (o : Options Real) (m n : ℕ) (wk : Generator)
      → Usable m wk.dist_points
      → o.priorities ≡ pos n
      → 8 ≤ n
      → n < 2 ^ 31
      → Good o (simulate W fuel held o wk pifo_type)
  unfolding simulate
  pifo-Good o m n wk a e h k =
      let R : Process = process W o.util wk in
      rw ((gather-new held).0) (
        Ends->>= (Allowed o) (λ t. Accounted (pifo_run t)) Accounted
          (loop R (pifo_naive o.priorities) fuel o.duration 0
            (start R (pifo_naive o.priorities) (new_pifo held)))
          (λ t. ok (pifo_run t))
          (subst
            (λ z.
              Ends (Allowed o) (λ t. Accounted (pifo_run t))
                (loop R (pifo_naive z) fuel o.duration 0 (start R (pifo_naive z) (new_pifo held))))
            (sym e)
            (Ends-of-Returns (Allowed o) (λ t. Accounted (pifo_run t))
              (loop R (pifo_naive (pos n)) fuel o.duration 0
                (start R (pifo_naive (pos n)) (new_pifo held)))
              (run_conserves R (process-positive m o.util wk a) n h k held fuel o.duration small)))
          (λ t h. h))

  -- A draining run whatever is known of its end.
  pub pulse-Ends :
      (P : Run Time PifoNaive.Own → Type 0) (o : Options Real) (m n : ℕ) (wk : Generator)
      → Usable m wk.dist_points
      → o.priorities ≡ pos n
      → 8 ≤ n
      → n < 2 ^ 31
      → Ends Any P (
          pulse_loop
            (process W o.util wk)
            (pifo_naive (pos n))
            fuel
            o.max
            o.duration
            0
            (start (process W o.util wk) (pifo_naive (pos n)) (pulse_start held o.duration)))
      → Returns (λ s. Accounted s × Pulsed P s) (simulate W fuel held o wk pulse_type)
  unfolding simulate start
  pulse-Ends P o m n wk a e h k x =
      let R : Process = process W o.util wk in
      let positive : (j : ℕ) → pos 0 <ℤ R.chunks j = process-positive m o.util wk a in
      let q : Object PifoNaive.Own = pulse_start held o.duration in
      Ends->>= Never (λ t. Accounted (pulse_run t) × P t) (λ s. Accounted s × Pulsed P s)
        (pulse_loop R (pifo_naive o.priorities) fuel o.max o.duration 0
          (start R (pifo_naive o.priorities) q))
        (λ t. ok (pulse_run t))
        (subst
          (λ z.
            Returns (λ t. Accounted (pulse_run t) × P t)
              (pulse_loop R (pifo_naive z) fuel o.max o.duration 0 (start R (pifo_naive z) q)))
          (sym e)
          (Ends-map Never (λ t. Advanced false R positive n h k fuel q.base t × P t)
            (λ t. Accounted (pulse_run t) × P t)
            (pulse_loop R (pifo_naive (pos n)) fuel o.max o.duration 0
              (start R (pifo_naive (pos n)) q))
            (λ t b. ((b.0.0.same, b.0.0.active, b.0.0.distinct, b.0.0.at_most), b.1))
            (Ends-and Never Any (Advanced false R positive n h k fuel q.base) P
              (pulse_loop R (pifo_naive (pos n)) fuel o.max o.duration 0
                (start R (pifo_naive (pos n)) q))
              (pulse_loop-Advanced R positive n h k fuel o.max o.duration 0
                (start R (pifo_naive (pos n)) q) (pulse_start-InSystem held o.duration) (positive 0)
                (omega (arith, id-pulse_start held o.duration)))
              x)))
        (λ t h. h)

  pub typed :
      (o : Options Real) (m : ℕ) (wk : Generator) (y : QueueType)
      → Usable m wk.dist_points
      → (nmap o.qtype ≡ y)
      → Sized o
      → Good o (simulate W fuel held o wk y)
  unfolding simulate
  typed o m wk ideal_type a e z = ideal-Good o m wk a e
  typed o m wk pifo_type a e (inl c) = absurd (cc)
  typed o m wk pifo_type a e (inr (n, p, h, k)) = pifo-Good o m n wk a p h k
  typed o m wk pulse_type a e (inl c) = absurd (cc)
  typed o m wk pulse_type a e (inr (n, p, h, k)) = Ends-of-Returns (Allowed o) Accounted _ (
      Ends-map Never _ Accounted _ (λ s b. b.0)
        (pulse-Ends (λ t. Unit {0}) o m n wk a p h k (Ends-Any _)))
  typed o m wk snapshot_type a e z = rw (snapshot_end o.priorities held fuel) (new_pifo-empty held)
