-- ===== src/Sim/Qsim.antt =====
-- model/qsim.cc: the simulation loops of `main`. The exponential distribution, the workload's
-- generator and the arithmetic of `double` are not this repository's code: a `Process` supplies
-- them, and the k-th draw is a function of k.
use homa_nic.Prelude.{ℕ, zero, suc, ◌+◌, Bool, true, false, ◌&&◌, not, if◌then◌else◌, ltb}
use homa_nic.Prelude.{Result, ok, ◌>>=◌, ◌>>◌, guard, assert_failed}
use homa_nic.Prelude.Int.{ℤ, pos, eq_ℤ, to_u32}
use homa_nic.Sim.Base.{Object, Discipline, arrival, departure, add64}

-- `arrivals(gen)`, `std::ceil(wk(gen)/64.0)`, and the sums and tests of `double` in the loops.
pub record Process : Type 1 where
  pub Time : Type 0
  pub gap : ℕ → Time
  pub chunks : ℕ → ℤ
  pub add : Time → Time → Time
  pub of_slot : ℕ → Time
  pub reached : Time → ℕ → Bool

-- The local variables of `main` that the loops change, beside the slot number `ts`.
pub record Run (T S : Type 0) : Type 0 where
  pub queue : Object S
  pub next_arrival : T
  pub next_length : ℤ
  pub drawn : ℕ
  pub drain : Bool
  pub pulses : ℕ

module _ (R : Process) {S : Type 0} (d : Discipline S) where
  open R use {Time, gap, chunks, add, of_slot, reached}

  -- The first draws.
  unfoldable pub start : Object S → Run Time S
  start q = record {
    queue = q;
    next_arrival = gap 0;
    next_length = chunks 0;
    drawn = 1;
    drain = false;
    pulses = 0;
  }

  -- `queue->arrival(ts, next_length)` and the draws for the next one.
  unfoldable pub deliver : ℕ → Run Time S → Result (Run Time S)
  deliver ts r = do
    guard (not (eq_ℤ r.next_length (pos 0))) assert_failed
    q ← arrival d ts r.next_length r.queue
    ok (record r {
      queue = q;
      next_arrival = add r.next_arrival (gap r.drawn);
      next_length = chunks r.drawn;
      drawn = suc r.drawn;
    })

  -- One round of the loop that runs until `duration` messages are complete.
  unfoldable pub slot : ℕ → Run Time S → Result (Run Time S)
  slot ts r = do
    q ← departure d ts r.queue
    let r' : Run Time S = record r { queue = q }
    r'' ← if reached r.next_arrival ts then deliver ts r' else ok r'
    q' ← d.step ts r''.queue
    ok (record r'' { queue = q' })

  -- The fuel bounds the rounds: a run that has used it up is returned as it stands.
  unfoldable pub loop : ℕ → ℕ → ℕ → Run Time S → Result (Run Time S)
  loop zero duration ts r = ok r
  loop (suc fuel) duration ts r = elim (ltb r.queue.base.simstats.comps duration) [
    | true ↦ slot ts r >>= loop fuel duration (add64 ts 1)
    | false ↦ ok r
  ]

  -- The draining mode: once more than `max` messages wait, arrivals stop until none is left.
  unfoldable pub begin_drain : ℕ → Run Time S → Run Time S
  begin_drain max r =
      if ltb max (to_u32 (d.size r.queue.own)) && not r.drain
      then (record r {
        queue = record (r.queue) { base = record (r.queue.base) { gstats = true } };
        drain = true;
      })
      else r

  unfoldable pub end_drain : ℕ → Run Time S → Run Time S
  end_drain ts r =
      if eq_ℤ (d.size r.queue.own) (pos 0) && r.drain
      then (record r {
        queue = record (r.queue) { base = record (r.queue.base) { gstats = false } };
        drain = false;
        pulses = r.pulses + 1;
        next_arrival = add (of_slot ts) (gap r.drawn);
        drawn = suc r.drawn;
      })
      else r

  unfoldable pub pulse : ℕ → ℕ → Run Time S → Result (Run Time S)
  pulse max ts r = do
    q ← departure d ts r.queue
    let r' : Run Time S = end_drain ts (begin_drain max (record r { queue = q }))
    r'' ← if reached r'.next_arrival ts && not r'.drain then deliver ts r' else ok r'
    q' ← d.step ts r''.queue
    ok (record r'' { queue = q' })

  unfoldable pub pulse_loop : ℕ → ℕ → ℕ → ℕ → Run Time S → Result (Run Time S)
  pulse_loop zero max duration ts r = ok r
  pulse_loop (suc fuel) max duration ts r = elim (ltb r.pulses duration) [
    | true ↦ pulse max ts r >>= pulse_loop fuel max duration (add64 ts 1)
    | false ↦ ok r
  ]

module _ {S : Type 0} (d : Discipline S) where
  -- The mode that starts from a snapshot takes no arrivals.
  unfoldable pub snapshot_slot : ℕ → Object S → Result (Object S)
  snapshot_slot ts q = departure d ts q >>= d.step ts

  unfoldable pub snapshot_loop : ℕ → ℕ → Object S → Result (Object S)
  snapshot_loop zero ts q = ok q
  snapshot_loop (suc fuel) ts q = elim (d.empty q.own) [
    | true ↦ ok q
    | false ↦ snapshot_slot ts q >>= snapshot_loop fuel (add64 ts 1)
  ]
