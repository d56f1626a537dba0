-- ===== src/Sim/PifoNaive/Run.antt =====
-- Rounds and runs of the loop of model/qsim.cc over a `PIFO_Naive` queue.
use homa_nic.Prelude.{Never}
use homa_nic.Prelude.{
  Bool, true, ℕ, zero, suc, ◌+◌, ◌≤◌, ◌<◌, ◌^◌, ◌≡◌, refl, ap, arith, ltb, ◌==◌, if◌then◌else◌,
  length, inl, inr, Bool-cases, ok, Returns, Ends->>=, Ends-map,
}
use homa_nic.Prelude.Int.{pos, ◌<ℤ◌}
use homa_nic.Sim.Entry.{Entry}
use homa_nic.Sim.Multiset.{count, SameEntries}
use homa_nic.Sim.Base.{Base, Simstat, add64, departure, arrival, fresh}
use homa_nic.Sim.Qsim.{Process, Run, slot, deliver, loop, start}
use homa_nic.Sim.Ideal.Arrivals.{nonzero}
use homa_nic.Sim.PifoNaive.{Own, pifo_naive, new_pifo, step}
use homa_nic.Sim.PifoNaive.Contents.{contents}
use homa_nic.Sim.PifoNaive.Step.{step-conserves}
use homa_nic.Sim.PifoNaive.System.{InSystem}
use homa_nic.Sim.PifoNaive.Events.{Kept, moved-InSystem, departure-Kept, arrival-InSystem}

pub new_pifo-InSystem :
    {all : Bool} (held : Entry) → InSystem all (new_pifo held).base (new_pifo held).own
unfolding new_pifo fresh count
new_pifo-InSystem held = record {
  places = record { scan_in = tt; unsorted = tt };
  same = λ p. refl;
  distinct = λ n. omega arith;
  below = refl;
  unsent = refl;
  active = refl;
  counted = λ a. refl;
  books = λ a. refl;
  at_most = omega arith;
  word = omega arith;
}

pub id-new_pifo : (held : Entry) → (new_pifo held).base.id ≡ 0
unfolding new_pifo fresh
id-new_pifo held = refl

-- At least 8 priorities, as an `int`.
module _ (all : Bool) (n : ℕ) (h : 8 ≤ n) (k : n < 2 ^ 31) where
  pub step-Kept :
      (ts : ℕ) (b : Base) (o : Own)
      → InSystem all b o
      → Returns (Kept all b) (step (pos n) ts (record { base = b; own = o }))
  step-Kept ts b o v =
      Ends-map Never _ (Kept all b) (step (pos n) ts (record { base = b; own = o }))
        (λ t m. (
          moved-InSystem b t.base o t.own v
              (m.3.0, m.3.1, m.3.4, ap (λ (s : Simstat). s.comps) m.3.3) m.0 m.1 m.2,
          m.3.1,
        ))
        (step-conserves n ts (record { base = b; own = o }) h k v.places)

module _ (all : Bool) (R : Process) (positive : (k : ℕ) → pos 0 <ℤ R.chunks k) (n : ℕ) (h : 8 ≤ n)
    (k : n < 2 ^ 31) where
  abbrev pub Q : Type 0
  Q = Run R.Time Own

  -- After a number of rounds.
  abbrev pub Advanced : ℕ → Base → Q → Type 0
  Advanced m b t =
      InSystem all t.queue.base t.queue.own
      × (t.queue.base.id ≤ b.id + m)
      × (pos 0 <ℤ t.next_length)

  pub deliver-Advanced :
      (now : Bool) (ts : ℕ) (b : Base) (r : Q)
      → InSystem all r.queue.base r.queue.own
      → r.queue.base.id ≡ b.id
      → pos 0 <ℤ r.next_length
      → suc b.id < 2 ^ 64
      → Returns (Advanced 1 b) (if now then deliver R (pifo_naive (pos n)) ts r else ok r)
  unfolding deliver
  deliver-Advanced now ts b r v i l small = elim (Bool-cases now) [
    | inr p ↦ rw p (v, omega arith, l)
    | inl p ↦
        rw (p, nonzero r.next_length l)
          (Ends->>= Never (λ q. InSystem all q.base q.own × (q.base.id ≡ suc r.queue.base.id))
            (Advanced 1 b) (arrival (pifo_naive (pos n)) ts r.next_length r.queue) _
            (arrival-InSystem (pos n) ts r.next_length r.queue.base r.queue.own v l (omega arith))
            (λ q a. (a.0, omega arith, positive r.drawn)))
  ]

  slot-Advanced :
      (ts : ℕ) (r : Q)
      → InSystem all r.queue.base r.queue.own
      → pos 0 <ℤ r.next_length
      → suc r.queue.base.id < 2 ^ 64
      → Returns (Advanced 1 r.queue.base) (slot R (pifo_naive (pos n)) ts r)
  unfolding slot
  slot-Advanced ts r v l small =
      let b : Base = r.queue.base in
      Ends->>= Never (Kept all b) (Advanced 1 b) (departure (pifo_naive (pos n)) ts r.queue) _
        (departure-Kept (pos n) ts b r.queue.own v)
        (λ q d.
          Ends->>= Never (Advanced 1 b) (Advanced 1 b) _ _
            (deliver-Advanced (R.reached r.next_arrival ts) ts b (record r { queue = q }) d.0 d.1 l
              small)
            (λ t a.
              Ends->>= Never (Kept all t.queue.base) (Advanced 1 b) (step (pos n) ts t.queue) _
                (step-Kept all n h k ts t.queue.base t.queue.own a.0)
                (λ q' m. (m.0, omega (arith, a.1, m.1), a.2))))

  loop-Advanced :
      (fuel duration ts : ℕ) (r : Q)
      → InSystem all r.queue.base r.queue.own
      → pos 0 <ℤ r.next_length
      → r.queue.base.id + fuel < 2 ^ 64
      → Returns (Advanced fuel r.queue.base) (loop R (pifo_naive (pos n)) fuel duration ts r)
  unfolding loop
  loop-Advanced zero duration ts r v l small = (v, omega arith, l)
  loop-Advanced (suc fuel) duration ts r v l small =
      elim (Bool-cases (ltb r.queue.base.simstats.comps duration)) [
        | inr p ↦ rw (p, loop) (v, omega arith, l)
        | inl p ↦
            rw (p, loop)
              (Ends->>= Never (Advanced 1 r.queue.base) (Advanced (suc fuel) r.queue.base)
                (slot R (pifo_naive (pos n)) ts r) _ (slot-Advanced ts r v l (omega arith))
                (λ t a.
                  Ends-map Never _ (Advanced (suc fuel) r.queue.base)
                    (loop R (pifo_naive (pos n)) fuel duration (add64 ts 1) t)
                    (λ u m. (m.0, omega (arith, a.1, m.1), m.2))
                    (loop-Advanced fuel duration (add64 ts 1) t a.0 a.2
                      (omega (arith, a.1, small)))))
      ]

module _ (R : Process) (positive : (k : ℕ) → pos 0 <ℤ R.chunks k) (n : ℕ) (h : 8 ≤ n)
    (k : n < 2 ^ 31) where
  -- A run from the start over any arrivals of at least one chunk, with at least 8 priorities and
  -- for any number of rounds under 2 ^ 31, returns: no assertion fails, so each message that is
  -- chosen is once in `gqueue`, and nothing is read out of bounds. At its end `gqueue` holds the
  -- messages that are in the sorted queue, in the backing list or held, each as often, `active` is
  -- their number, no two have the same id, and each message that arrived is complete or among them.
  pub run_conserves :
      (held : Entry) (fuel duration : ℕ)
      → fuel < 2 ^ 31
      → Returns
          (λ t.
            SameEntries t.queue.base.gqueue (contents t.queue.own)
            × (t.queue.own.active ≡ pos (length t.queue.base.gqueue))
            × ((i : ℕ) → count (λ e. e.id == i) t.queue.base.gqueue ≤ 1)
            × (t.queue.base.simstats.comps + length t.queue.base.gqueue ≡ t.queue.base.id))
          (loop R
            (pifo_naive (pos n))
            fuel
            duration
            0
            (start R (pifo_naive (pos n)) (new_pifo held)))
  unfolding start
  run_conserves held fuel duration small =
      Ends-map Never _ _
        (loop R (pifo_naive (pos n)) fuel duration 0 (start R (pifo_naive (pos n)) (new_pifo held)))
        (λ t a. (a.0.same, a.0.active, a.0.distinct, a.0.books refl))
        (loop-Advanced true R positive n h k fuel duration 0
          (start R (pifo_naive (pos n)) (new_pifo held)) (new_pifo-InSystem held) (positive 0)
          (omega (arith, id-new_pifo held)))
