-- ===== src/Trace/Threads/Steps.antt =====
-- What the constructor does for a thread without a buffer, and what the destructor does.
use homa_nic.Prelude.{
  ℕ, zero, suc, ◌+◌, ◌≤◌, ◌<◌, ◌≡◌, ◌≢◌, ◌∙◌, refl, sym, ap, subst, none, some, List, [], ◌∷◌, ◌++◌,
}
use homa_nic.Prelude.{arith, get_elem?, if◌then◌else◌, ==_refl}
use homa_nic.Prelude.Int.{pos}
use mathlib.Core.Path.{fun_ext}
use Prim.Native.String.{String}
use homa_nic.Trace.Buffer.{Event, fresh, record_event}
use homa_nic.Trace.Threads.{Cell, Threads, update, at_cell, trace_event, created, ensure, construct}
use homa_nic.Trace.Threads.Cleanup.{occurs}
use homa_nic.Trace.Threads.Consistent.{
  Object, refs, is_live, Counted, IsConsistent, update_cases, add_ref, Counted-add_ref, owned,
}

-- An event recorded by a thread with the buffer `b`.
abbrev pub with_trace : ℕ → Cell → Event → Threads → Threads
with_trace b c e s = record s {
  store = update b (some (record c { trace = record_event s.frozen e c.trace })) s.store;
}

pub trace_event_lem :
    (t : ℕ) (e : Event) (s : Threads) (b : ℕ) (c : Cell)
    → s.tb t ≡ some b
    → s.store b ≡ some c
    → trace_event t e s ≡ some (with_trace b c e s)
unfolding trace_event at_cell
trace_event_lem t e s b c h k = rw (trace_event, h, k) refl

pub trace-IsConsistent :
    (b : ℕ) (c : Cell) (e : Event) (s : Threads) (os : List Object)
    → IsConsistent s os
    → s.store b ≡ some c
    → IsConsistent (with_trace b c e s) os
trace-IsConsistent b c e s os v k = record {
  held = v.held;
  used = v.used;
  own = v.own;
  cells =
      update_cases (λ j o. Counted o (refs j os)) b s.store
        (subst (λ o. Counted o (refs b os)) k (v.cells b)) (λ j n. v.cells j);
  listed =
      update_cases (λ j o. occurs j s.thread_buffers ≡ (if is_live o then 1 else 0)) b s.store
        (v.listed b ∙ rw k refl) (λ j n. v.listed j);
  new =
      update_cases (λ j o. s.unused ≤ j → o ≡ none) b s.store
        (λ l. absurd (let gone = v.new b l in cc)) (λ j n. v.new j);
}

-- The new buffer of a thread, with the event that the constructor records in it.
abbrev new_cell : String → ℕ → Threads → Cell
new_cell name time s = record {
  ref_count = pos 0;
  trace = record_event s.frozen (created time) (fresh name);
}

abbrev pub with_buffer : ℕ → String → ℕ → Threads → Threads
with_buffer t name time s = record s {
  tb = update t (some s.unused) s.tb;
  thread_buffers = s.thread_buffers ++ s.unused ∷ [];
  store = update s.unused (some (add_ref (new_cell name time s))) s.store;
  unused = suc s.unused;
}

update_twice {ℓ} :
    {A : Type ℓ} (i : ℕ) (a b : A) (f : ℕ → A) → update i a (update i b f) ≡ update i a f
update_twice i a b f = fun_ext (
    update_cases (λ j x. x ≡ update i a f j) i (update i b f) (rw (==_refl i) refl)
      (λ j n. rw n refl))

ensure_new :
    (t : ℕ) (name : String) (time : ℕ) (s : Threads)
    → s.tb t ≡ none
    → ensure t name time s
      ≡ some (record (with_buffer t name time s) {
        store = update s.unused (some (new_cell name time s)) s.store;
      })
unfolding ensure trace_event at_cell
ensure_new t name time s h =
    rw
      (
        ensure,
        h,
        trace_event,
        ==_refl t,
        ==_refl s.unused,
        update_twice s.unused (some (new_cell name time s))
            (some (record { ref_count = pos 0; trace = fresh name })) s.store,
      )
      refl

pub construct_new :
    (t : ℕ) (name : String) (time : ℕ) (s : Threads)
    → s.tb t ≡ none
    → construct t name time s ≡ some (s.unused, with_buffer t name time s)
unfolding construct at_cell
construct_new t name time s h =
    rw
      (
        construct,
        ensure_new t name time s h,
        ==_refl t,
        ==_refl s.unused,
        update_twice s.unused (some (add_ref (new_cell name time s))) (some (new_cell name time s))
            s.store,
      )
      refl

occurs-append : (b : ℕ) (xs ys : List ℕ) → occurs b (xs ++ ys) ≡ occurs b xs + occurs b ys
occurs-append b [] ys = omega arith
occurs-append b (x ∷ xs) ys = ground (arith, occurs-append b xs ys)

positive : (n : ℕ) → 0 < suc n
positive n = omega arith

-- The number that `new` takes is that of no buffer.
unowned : (s : Threads) (os : List Object) (t : ℕ) → IsConsistent s os → s.tb t ≢ some s.unused
unowned s os t v h = let (c, e) = owned s os t v h in let gone = v.new s.unused (omega arith) in cc

unreferred : (s : Threads) (os : List Object) → IsConsistent s os → refs s.unused os ≡ 0
unreferred s os v =
    subst (λ o. Counted o (refs s.unused os)) (v.new s.unused (omega arith)) (v.cells s.unused)

pub new-IsConsistent :
    (t : ℕ) (name : String) (time : ℕ) (s : Threads) (os : List Object)
    → IsConsistent s os
    → s.tb t ≡ none
    → IsConsistent (with_buffer t name time s) (record { thread = t; buffer = s.unused } ∷ os)
new-IsConsistent t name time s os v h = record {
  held = λ i e. held i e;
  used = λ u e.
      update_cases (λ u r. (b : ℕ) → r ≡ some b → 0 < refs b (object ∷ os)) t s.tb
        (λ b p.
          let same : s.unused ≡ b = cc in rw (← same, ==_refl s.unused) (positive (refs b os)))
        (λ u n b p. ground (arith, v.used u p)) u _ e;
  own = λ t1 u {b} p q. own t1 u b p q;
  cells =
      update_cases (λ j o. Counted o (refs j (object ∷ os))) s.unused s.store
        (rw (==_refl s.unused) (
          Counted-add_ref (new_cell name time s) (refs s.unused os)
            (sym (ap pos (unreferred s os v)))))
        (λ j n. rw n (v.cells j));
  listed =
      update_cases
        (λ j o. occurs j (s.thread_buffers ++ s.unused ∷ []) ≡ (if is_live o then 1 else 0))
        s.unused s.store
        (occurs-append s.unused s.thread_buffers (s.unused ∷ [])
          ∙ rw (==_refl s.unused, v.listed s.unused, v.new s.unused (omega arith)) refl)
        (λ j n.
          occurs-append j s.thread_buffers (s.unused ∷ []) ∙ rw n (omega (arith, v.listed j)));
  new =
      update_cases (λ j o. suc s.unused ≤ j → o ≡ none) s.unused s.store (λ l. absurd (omega arith))
        (λ j n l. v.new j (omega arith));
}
  where
    object : Object
    object = record { thread = t; buffer = s.unused }

    kept : (u : ℕ) {b : ℕ} → s.tb u ≡ some b → update t (some s.unused) s.tb u ≡ some b
    kept u {b = b} =
        update_cases (λ u r. s.tb u ≡ some b → r ≡ some b) t s.tb (λ e. absurd (cc)) (λ u n e. e) u

    held :
        (i : ℕ) {o : Object}
        → get_elem? (object ∷ os) i ≡ some o
        → update t (some s.unused) s.tb o.thread ≡ some o.buffer
    held zero {o = o} e =
        let same : object ≡ o = cc in
        subst (λ (o : Object). update t (some s.unused) s.tb o.thread ≡ some o.buffer) same
          (rw (==_refl t) refl)
    held (suc i) {o = o} e = kept o.thread (v.held i e)

    own :
        (t1 u b : ℕ)
        → update t (some s.unused) s.tb t1 ≡ some b
        → update t (some s.unused) s.tb u ≡ some b
        → t1 ≡ u
    own =
        update_cases
          (λ t1 r. (u b : ℕ) → r ≡ some b → update t (some s.unused) s.tb u ≡ some b → t1 ≡ u) t
          s.tb
          (update_cases (λ u x. (b : ℕ) → some s.unused ≡ some b → x ≡ some b → t ≡ u) t s.tb
            (λ b p q. refl) (λ u n b p q. absurd (unowned s os u v (q ∙ sym p))))
          (λ t1 n.
            update_cases (λ u x. (b : ℕ) → s.tb t1 ≡ some b → x ≡ some b → t1 ≡ u) t s.tb
              (λ b p q. absurd (unowned s os t1 v (p ∙ sym q))) (λ u m b p q. v.own t1 u p q))
