-- ===== src/Sim/Ideal/Run.antt =====
-- The loop of model/qsim.cc over an `Ideal` queue.
use homa_nic.Prelude.{ℕ, zero, suc, ◌+◌, ◌≤◌, ◌<◌, ◌^◌, ◌≡◌, ◌∙◌, ◌⊎◌, inl, inr, refl, arith}
use homa_nic.Prelude.{[], length, ok, Fault, out_of_bounds, Ends, Ends->>=, Ends-map}
use homa_nic.Prelude.{Ends-of-Returns, Returns, or_map, Bool-cases, ltb, if◌then◌else◌}
use homa_nic.Prelude.Int.{pos, ◌<ℤ◌}
use homa_nic.Sim.Base.{Object, departure, arrival, add64, fresh}
use homa_nic.Sim.Base.Account.{SameQuality}
use homa_nic.Sim.Qsim.{Process, Run, slot, deliver, loop, start}
use homa_nic.Sim.Ideal.{Own, ideal, step}
use homa_nic.Sim.Ideal.Invariant.{IsValid, Books, Kept, departure-Kept}
use homa_nic.Sim.Ideal.Arrivals.{Arrived, arrival-Arrived, step-Kept, nonzero}

-- `new Ideal(tfile)`.
unfoldable pub new_queue : Object Own
new_queue = record { base = fresh; own = [] }

pub new_queue-IsValid : IsValid new_queue.base new_queue.own
unfolding new_queue fresh
new_queue-IsValid = record {
  same = refl;
  sorted = tt;
  distinct = tt;
  below = tt;
  unsent = tt;
  slots = refl;
  word = omega arith;
}

pub new_queue-Books : Books new_queue.base new_queue.own
unfolding new_queue fresh
new_queue-Books = (refl, refl)

new_stats :
    (new_queue.base.simstats.pktinacc ≡ 0)
    × (new_queue.base.simstats.underflow ≡ 0)
    × (new_queue.base.violations ≡ [])
    × (new_queue.base.id ≡ 0)
unfolding new_queue fresh
new_stats = (refl, refl, refl, refl)

module _ (R : Process) (positive : (k : ℕ) → pos 0 <ℤ R.chunks k) where
  -- What a round, or a number of rounds, keeps of the queue.
  abbrev pub Advanced : ℕ → Object Own → Run R.Time Own → Type 0
  Advanced n q t =
      IsValid t.queue.base t.queue.own
      × SameQuality q.base t.queue.base
      × (t.queue.base.id ≤ q.base.id + n)
      × (length t.queue.own ≤ length q.own + n)
      × (Books q.base q.own → Books t.queue.base t.queue.own)
      × (pos 0 <ℤ t.next_length)

  -- What a round reaches.
  abbrev pub Reached : Object Own → Run R.Time Own → Type 0
  Reached q t =
      IsValid t.queue.base t.queue.own
      × SameQuality q.base t.queue.base
      × (t.queue.base.id ≤ q.base.id + 1)
      × (length t.queue.own ≤ length q.own + 1)
      × Books t.queue.base t.queue.own
      × (pos 0 <ℤ t.next_length)

  Advanced-trans :
      (m n : ℕ) (q : Object Own) (t u : Run R.Time Own)
      → Advanced m q t
      → Advanced n t.queue u
      → Advanced (m + n) q u
  Advanced-trans m n q t u h k = (
    k.0,
    (k.1.0 ∙ h.1.0, k.1.1 ∙ h.1.1, k.1.2 ∙ h.1.2, k.1.3 ∙ h.1.3),
    omega arith,
    omega arith,
    λ b. k.4 (h.4 b),
    k.5,
  )

  module _ (F : Fault → Type 0) where
    deliver-Advanced :
        (ts : ℕ) (r : Run R.Time Own)
        → IsValid r.queue.base r.queue.own
        → pos 0 <ℤ r.next_length
        → (length r.queue.own < 1024) ⊎ F out_of_bounds
        → suc r.queue.base.id < 2 ^ 64
        → Ends F (Advanced 1 r.queue) (deliver R ideal ts r)
    unfolding deliver
    deliver-Advanced ts r v l n small = rw (nonzero r.next_length l) (
        Ends->>= F (Arrived r.queue.base r.queue.own) _ (arrival ideal ts r.next_length r.queue) _
          (arrival-Arrived F ts r.next_length r.queue.base r.queue.own v l n small)
          (λ q h. (h.0, h.1, omega arith, omega arith, h.4, positive r.drawn)))

    arrivals-Advanced :
        (ts : ℕ) (r r' : Run R.Time Own)
        → Advanced 0 r.queue r'
        → (length r.queue.own < 1024) ⊎ F out_of_bounds
        → suc r.queue.base.id < 2 ^ 64
        → Ends F
            (Advanced 1 r.queue)
            (if R.reached r'.next_arrival ts then deliver R ideal ts r' else ok r')
    arrivals-Advanced ts r r' a n small = elim (Bool-cases (R.reached r'.next_arrival ts)) [
      | inl e ↦ rw e (
          Ends-map F _ _ (deliver R ideal ts r') (λ t h. Advanced-trans 0 1 r.queue r' t a h)
            (deliver-Advanced ts r' a.0 a.5 (or_map (λ q. omega arith) n) (omega arith)))
      | inr e ↦ rw e (a.0, a.1, omega arith, omega arith, a.4, a.5)
    ]

    -- One round of the loop.
    pub slot-Advanced :
        (ts : ℕ) (r : Run R.Time Own)
        → IsValid r.queue.base r.queue.own
        → pos 0 <ℤ r.next_length
        → (length r.queue.own < 1024) ⊎ F out_of_bounds
        → suc r.queue.base.id < 2 ^ 64
        → Ends F (Advanced 1 r.queue) (slot R ideal ts r)
    unfolding slot
    slot-Advanced ts r v l n small =
        Ends->>= F (Kept r.queue.base r.queue.own) _ (departure ideal ts r.queue) _
          (Ends-of-Returns F (Kept r.queue.base r.queue.own) (departure ideal ts r.queue)
            (departure-Kept ts r.queue.base r.queue.own v))
          (λ q h.
            Ends->>= F (Advanced 1 r.queue) (Advanced 1 r.queue) _ _
              (arrivals-Advanced ts r (record r { queue = q })
                (h.0, h.1, omega arith, omega arith, h.4, l) n small)
              (λ t a.
                Ends->>= F (Kept t.queue.base t.queue.own) (Advanced 1 r.queue) (step ts t.queue) _
                  (step-Kept F ts t.queue.base t.queue.own a.0 (or_map (λ p. omega arith) n))
                  (λ q' k.
                    Advanced-trans 1 0 r.queue t (record t { queue = q' }) a
                      (k.0, k.1, omega arith, omega arith, k.4, a.5))))

  -- With fewer than 1024 messages waiting and ids that have not run out, a round of the loop over a
  -- valid queue returns, when a positive length was drawn for the next message: it fails no
  -- assertion and writes inside `slotstats`. The queue stays valid, the round counts no inaccuracy
  -- and no wasted slot and records no violation, it gives out at most one id, at most one more
  -- message waits after it, the next length drawn is positive, and each message that arrived is
  -- complete or queued, when that was so before.
  pub slot-Returns :
      (ts : ℕ) (r : Run R.Time Own)
      → IsValid r.queue.base r.queue.own
      → Books r.queue.base r.queue.own
      → pos 0 <ℤ r.next_length
      → length r.queue.own < 1024
      → suc r.queue.base.id < 2 ^ 64
      → Returns (Reached r.queue) (slot R ideal ts r)
  slot-Returns ts r v h l n small =
      Ends-map _ (Advanced 1 r.queue) (Reached r.queue) (slot R ideal ts r)
        (λ t a. (a.0, a.1, a.2, a.3, a.4 h, a.5)) (slot-Advanced (λ _. ⊥) ts r v l (inl n) small)

  -- Any number of rounds of the loop, each as above, or an end out of bounds.
  pub loop_safe :
      (fuel duration ts : ℕ) (r : Run R.Time Own)
      → IsValid r.queue.base r.queue.own
      → pos 0 <ℤ r.next_length
      → r.queue.base.id + fuel < 2 ^ 64
      → Ends (λ e. e ≡ out_of_bounds) (Advanced fuel r.queue) (loop R ideal fuel duration ts r)
  unfolding loop
  loop_safe zero duration ts r v l small =
      (v, (refl, refl, refl, refl), omega arith, omega arith, λ b. b, l)
  loop_safe (suc fuel) duration ts r v l small =
      elim (Bool-cases (ltb r.queue.base.simstats.comps duration)) [
        | inl e ↦
            rw (e, loop)
              (Ends->>= _ (Advanced 1 r.queue) _ (slot R ideal ts r) _
                (slot-Advanced _ ts r v l (inr refl) (omega arith))
                (λ t a.
                  Ends-map _ _ _ (loop R ideal fuel duration (add64 ts 1) t)
                    (λ u b. again u (Advanced-trans 1 fuel r.queue t u a b))
                    (loop_safe fuel duration (add64 ts 1) t a.0 a.5 (omega arith))))
        | inr e ↦ rw (e, loop) (v, (refl, refl, refl, refl), omega arith, omega arith, λ b. b, l)
      ]
    where
      again : (u : Run R.Time Own) → Advanced (1 + fuel) r.queue u → Advanced (suc fuel) r.queue u
      again u a = (a.0, a.1, omega arith, omega arith, a.4, a.5)

  -- A run from the start, over any arrivals of at least one chunk, for any number of rounds under
  -- 2 ^ 64, ends out of bounds of `slotstats` or without a fault, never on an assertion. Where it
  -- ends without a fault, `gqueue` and `hwqueue` hold the same messages in the same order, the run
  -- counted no inaccuracy and no wasted slot and recorded no violation, and each message that
  -- arrived is complete or waits.
  pub run_exact :
      (fuel duration : ℕ)
      → fuel < 2 ^ 64
      → Ends
          (λ e. e ≡ out_of_bounds)
          (λ t.
            (t.queue.base.gqueue ≡ t.queue.own)
            × (t.queue.base.simstats.pktinacc ≡ 0)
            × (t.queue.base.simstats.underflow ≡ 0)
            × (t.queue.base.violations ≡ [])
            × (t.queue.base.simstats.comps + length t.queue.own ≡ t.queue.base.id))
          (loop R ideal fuel duration 0 (start R ideal new_queue))
  unfolding start
  run_exact fuel duration small =
      Ends-map _ _ _ (loop R ideal fuel duration 0 (start R ideal new_queue))
        (λ t h. (
          h.0.same,
          h.1.0 ∙ new_stats.0,
          h.1.1 ∙ new_stats.1,
          h.1.3 ∙ new_stats.2,
          (h.4 new_queue-Books).1,
        ))
        (loop_safe fuel duration 0 (start R ideal new_queue) new_queue-IsValid (positive 0)
          (omega (arith, new_stats.3)))
