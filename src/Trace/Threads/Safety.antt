-- ===== src/Trace/Threads/Safety.antt =====
-- Programs with `thread_buffer` objects: what their operations find behind the pointers.
use homa_nic.Prelude.{ℕ, ◌≡◌, ◌↔◌, ◌∙◌, sym, ap, subst, true, false, none, some, List, ◌∷◌}
use homa_nic.Prelude.{arith, get_elem?, ◌==◌, if◌then◌else◌, Option-cases, inl, inr}
use Prim.Native.String.{String}
use homa_nic.Trace.Buffer.{Event}
use homa_nic.Trace.Threads.{Cell, Threads, construct, destroy, trace_event, cleanup, freeze}
use homa_nic.Trace.Threads.Consistent.{
  Object, refs, remove, Runs, begin, make, leave, note, tidy, stop, print, IsConsistent,
  start-IsConsistent, owned, construct_old, old-IsConsistent,
}
use homa_nic.Trace.Threads.Steps.{
  trace_event_lem, trace-IsConsistent, construct_new, new-IsConsistent,
}
use homa_nic.Trace.Threads.Leave.{destroy-IsConsistent}
use homa_nic.Trace.Threads.Globals.{cleanup-IsConsistent, frozen_after, freeze-IsConsistent}

-- The constructor completes in a consistent state, and leaves one.
construct-IsConsistent :
    (t : ℕ) (name : String) (time : ℕ) (s : Threads) (os : List Object)
    → IsConsistent s os
    → (b : ℕ) × (s' : Threads) × (construct t name time s ≡ some (b, s'))
      × IsConsistent s' (record { thread = t; buffer = b } ∷ os)
construct-IsConsistent t name time s os v = elim (Option-cases (s.tb t)) [
  | inl h ↦ (_, _, construct_new t name time s h, new-IsConsistent t name time s os v h)
  | inr (b, h) ↦
      let (c, k) = owned s os t v h in
      (_, _, construct_old t name time s b c h k, old-IsConsistent t b s os c v h k)
]

-- Whether an event is traced or there is no buffer, the state stays consistent.
note-IsConsistent :
    (t : ℕ) (e : Event) (s s' : Threads) (os : List Object)
    → IsConsistent s os
    → trace_event t e s ≡ some s'
    → IsConsistent s' os
unfolding trace_event
note-IsConsistent t e s s' os v q = elim (Option-cases (s.tb t)) [
  | inl h ↦ absurd (ground (arith, q, h))
  | inr (b, h) ↦
      let (c, k) = owned s os t v h in
      let lands = trace_event_lem t e s b c h k in
      subst (λ s'. IsConsistent s' os) (cc) (trace-IsConsistent b c e s os v k)
]

pub Runs-IsConsistent : (s : Threads) (os : List Object) → Runs s os → IsConsistent s os
unfolding freeze
Runs-IsConsistent s os begin = start-IsConsistent
Runs-IsConsistent s os (make {s = r} {os = ps} t name time {b = b'} x q) =
    let (b, s', e, v) = construct-IsConsistent t name time r ps (Runs-IsConsistent r ps x) in
    let same : (b, s') ≡ (b', s) = cc in
    subst (λ (a : ℕ × Threads). IsConsistent a.1 (record { thread = t; buffer = a.0 } ∷ ps)) same v
Runs-IsConsistent s os (leave {s = r} {os = ps} i {o = o} x g q) =
    let v = Runs-IsConsistent r ps x in
    let (c, k) = owned r ps o.thread v (v.held i g) in
    let (s', e, w) = destroy-IsConsistent r ps i o c v g k in
    subst (λ s'. IsConsistent s' (remove ps i)) (cc) w
Runs-IsConsistent s os (note {s = r} t e x q) =
    note-IsConsistent t e r s os (Runs-IsConsistent r os x) q
Runs-IsConsistent s os (tidy {s = r} x q) =
    let (s', e, v, _) = cleanup-IsConsistent r os (Runs-IsConsistent r os x) in
    subst (λ s'. IsConsistent s' os) (cc) v
Runs-IsConsistent s os (stop {s = r} x) = freeze-IsConsistent true r os (Runs-IsConsistent r os x)
Runs-IsConsistent s os (print {s = r} {out = out} pointers x q) =
    subst (λ s'. IsConsistent s' os) (sym (frozen_after pointers r s out q))
      (freeze-IsConsistent false r os (Runs-IsConsistent r os x))

-- In every state that a program can reach with constructors and destructors of `thread_buffer`,
-- events, `freeze`, `cleanup` and printouts, these operations follow no null pointer and no pointer
-- to a deleted buffer, and complete: the constructor on any thread, the destructor of an object that
-- exists, an event on a thread that has an object, and `cleanup`.
pub no_dangling :
    (s : Threads) (os : List Object)
    → Runs s os
    → ((t : ℕ) (name : String) (time : ℕ)
        → (b : ℕ) × (s' : Threads) × (construct t name time s ≡ some (b, s')))
      × ((i : ℕ) (o : Object)
          → get_elem? os i ≡ some o
          → (s' : Threads) × (destroy o.thread o.buffer s ≡ some s'))
      × ((i : ℕ) (o : Object) (e : Event)
          → get_elem? os i ≡ some o
          → (s' : Threads) × (trace_event o.thread e s ≡ some s'))
      × ((s' : Threads) × (cleanup s ≡ some s'))
no_dangling s os r =
    let v = Runs-IsConsistent s os r in
    let cell : (i : ℕ) (o : Object)
        → get_elem? os i ≡ some o
        → (c : Cell) × (s.store o.buffer ≡ some c) =
      λ i o g. owned s os o.thread v (v.held i g) in
    (
      (λ t name time. let (b, s', q, _) = construct-IsConsistent t name time s os v in (b, s', q)),
      (λ i o g.
          let (c, k) = cell i o g in
          let (s', q, _) = destroy-IsConsistent s os i o c v g k in (s', q)),
      (λ i o e g.
          let (c, k) = cell i o g in (_, trace_event_lem o.thread e s o.buffer c (v.held i g) k)),
      (let (s', q, _, _) = cleanup-IsConsistent s os v in (s', q)),
    )

-- `cleanup` completes in every state that a program can reach, and deletes exactly the buffers that
-- no object refers to: every other buffer is as it was.
pub cleanup_exact :
    (s : Threads) (os : List Object)
    → Runs s os
    → (s' : Threads) × (cleanup s ≡ some s')
      × ((b : ℕ) → s'.store b ≡ (if refs b os == 0 then none else s.store b))
cleanup_exact s os r =
    let (s', q, _, f) = cleanup-IsConsistent s os (Runs-IsConsistent s os r) in (s', q, f)

-- Two objects that exist at the same time have the same buffer exactly when they are of the same
-- thread, so no two threads record in one buffer.
pub same_buffer :
    (s : Threads) (os : List Object) (i j : ℕ) (o p : Object)
    → Runs s os
    → get_elem? os i ≡ some o
    → get_elem? os j ≡ some p
    → (o.thread ≡ p.thread) ↔ (o.buffer ≡ p.buffer)
same_buffer s os i j o p r g h =
    let v = Runs-IsConsistent s os r in
    let left : s.tb o.thread ≡ some o.buffer = v.held i g in
    let right : s.tb p.thread ≡ some p.buffer = v.held j h in
    ((λ e. cc), λ e. v.own o.thread p.thread left (right ∙ ap some (sym e)))
