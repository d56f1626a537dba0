-- ===== src/Trace/Threads/Consistent.antt =====
-- The buffers of threads that construct and destroy `thread_buffer` objects.
use homa_nic.Prelude.{
  ℕ, zero, suc, ◌≤◌, ◌<◌, ◌≡◌, ◌∙◌, refl, sym, subst, Bool, true, false, Option, none, some, List,
  [], ◌∷◌,
}
use homa_nic.Prelude.{
  arith, get_elem?, ◌==◌, if◌then◌else◌, ==_cases, ==_refl, Option-cases, inl, inr,
}
use homa_nic.Prelude.Int.{pos, ◌+ℤ◌, ◌-ℤ◌}
use Prim.Native.String.{String}
use homa_nic.Trace.Buffer.{Event}
use homa_nic.Trace.Print.{Line}
use homa_nic.Trace.Threads.{
  Cell, Threads, no_threads, update, at_cell, trace_event, ensure, construct, destroy, cleanup,
  freeze, print_copied,
}
use homa_nic.Trace.Threads.Cleanup.{occurs}

-- A `thread_buffer` that exists: the thread that it is a local variable of, and its member.
pub record Object : Type 0 where
  pub thread : ℕ
  pub buffer : ℕ

abbrev pub refs : ℕ → List Object → ℕ
refs b [] = 0
refs b (o ∷ os) = if b == o.buffer then suc (refs b os) else refs b os

abbrev pub remove : List Object → ℕ → List Object
remove [] i = []
remove (o ∷ os) zero = os
remove (o ∷ os) (suc i) = o ∷ remove os i

-- The states that a program reaches, with the objects that exist there. `stop` is `freeze`, also
-- that of a printout, and `print` the rest of a printout, whatever pointers it has copied before.
pub data Runs : Threads → List Object → Type 0 where
  begin : Runs no_threads []
  make :
      {s s' : Threads} {os : List Object} (t : ℕ) (name : String) (time : ℕ) {b : ℕ}
      → Runs s os
      → construct t name time s ≡ some (b, s')
      → Runs s' (record { thread = t; buffer = b } ∷ os)
  leave :
      {s s' : Threads} {os : List Object} (i : ℕ) {o : Object}
      → Runs s os
      → get_elem? os i ≡ some o
      → destroy o.thread o.buffer s ≡ some s'
      → Runs s' (remove os i)
  note :
      {s s' : Threads} {os : List Object} (t : ℕ) (e : Event)
      → Runs s os
      → trace_event t e s ≡ some s'
      → Runs s' os
  tidy : {s s' : Threads} {os : List Object} → Runs s os → cleanup s ≡ some s' → Runs s' os
  stop : {s : Threads} {os : List Object} → Runs s os → Runs (freeze s) os
  print :
      {s s' : Threads} {os : List Object} {out : ℕ × List Line} (pointers : List ℕ)
      → Runs s os
      → print_copied pointers s ≡ some (out, s')
      → Runs s' os

abbrev pub is_live : Option Cell → Bool
is_live o = elim o [ none ↦ false | some c ↦ true ]

-- The `ref_count` of a buffer is the number of objects; no object refers to a freed buffer.
abbrev pub Counted : Option Cell → ℕ → Type 0
Counted none n = n ≡ 0
Counted (some c) n = c.ref_count ≡ pos n

-- A thread has a buffer while one of its objects refers to it, no other thread has that buffer,
-- and `thread_buffers` names each buffer on the heap once.
pub record IsConsistent (s : Threads) (os : List Object) : Type 0 where
  pub held : (i : ℕ) {o : Object} → get_elem? os i ≡ some o → s.tb o.thread ≡ some o.buffer
  pub used : (t : ℕ) {b : ℕ} → s.tb t ≡ some b → 0 < refs b os
  pub own : (t u : ℕ) {b : ℕ} → s.tb t ≡ some b → s.tb u ≡ some b → t ≡ u
  pub cells : (b : ℕ) → Counted (s.store b) (refs b os)
  pub listed : (b : ℕ) → occurs b s.thread_buffers ≡ (if is_live (s.store b) then 1 else 0)
  pub new : (b : ℕ) → s.unused ≤ b → s.store b ≡ none

pub refs-get :
    (os : List Object) (i : ℕ) {o : Object} → get_elem? os i ≡ some o → 0 < refs o.buffer os
refs-get [] i h = absurd (cc)
refs-get (x ∷ os) zero {o = o} h =
    let same : x ≡ o = cc in
    subst (λ (y : Object). 0 < refs o.buffer (y ∷ os)) (sym same)
      (rw (==_refl o.buffer) (omega arith))
refs-get (x ∷ os) (suc i) {o = o} h = ground (arith, refs-get os i h)

pub refs-remove :
    (os : List Object) (i b : ℕ) {o : Object}
    → get_elem? os i ≡ some o
    → refs b os ≡ (if b == o.buffer then suc (refs b (remove os i)) else refs b (remove os i))
refs-remove [] i b h = absurd (cc)
refs-remove (x ∷ os) zero b {o = o} h = let same : x ≡ o = cc in rw same refl
refs-remove (x ∷ os) (suc i) b {o = o} h = ground (arith, refs-remove os i b h)

pub get-remove :
    (os : List Object) (i j : ℕ) {o : Object}
    → get_elem? (remove os i) j ≡ some o
    → (k : ℕ) × (get_elem? os k ≡ some o)
get-remove [] i j h = absurd (cc)
get-remove (x ∷ os) zero j h = (suc j, h)
get-remove (x ∷ os) (suc i) zero h = (0, h)
get-remove (x ∷ os) (suc i) (suc j) h = let (k, e) = get-remove os i j h in (suc k, e)

pub start-IsConsistent : IsConsistent no_threads []
start-IsConsistent = record {
  held = λ i h. absurd (cc);
  used = λ t h. absurd (cc);
  own = λ t u h k. absurd (cc);
  cells = λ b. refl;
  listed = λ b. refl;
  new = λ b h. refl;
}

-- What holds of the new value at `i` and of the old values elsewhere holds everywhere.
pub update_cases {ℓ κ} :
    {A : Type ℓ} (P : ℕ → A → Type κ) (i : ℕ) {a : A} (f : ℕ → A)
    → P i a
    → ((j : ℕ) → (j == i) ≡ false → P j (f j))
    → (j : ℕ) → P j (update i a f j)
update_cases P i f p q j = elim (==_cases j i) [
  | inl h ↦ rw (h, ==_refl i) p
  | inr h ↦ rw h (q j h)
]

-- One object more, or one less, as a buffer's cell counts it.
abbrev pub add_ref : Cell → Cell
add_ref c = record c { ref_count = c.ref_count +ℤ pos 1 }

abbrev pub drop_ref : Cell → Cell
drop_ref c = record c { ref_count = c.ref_count -ℤ pos 1 }

pub Counted-add_ref : (c : Cell) (n : ℕ) → Counted (some c) n → Counted (some (add_ref c)) (suc n)
unfolding ◌+ℤ◌
Counted-add_ref c n h = rw h (ground arith)

pub Counted-drop_ref : (c : Cell) (n : ℕ) → Counted (some c) (suc n) → Counted (some (drop_ref c)) n
unfolding ◌-ℤ◌
Counted-drop_ref c n h = rw h (ground arith)

-- The buffer of a thread is on the heap.
pub owned :
    (s : Threads) (os : List Object) (t : ℕ) {b : ℕ}
    → IsConsistent s os
    → s.tb t ≡ some b
    → (c : Cell) × (s.store b ≡ some c)
owned s os t {b = b} v h = elim (Option-cases (s.store b)) [
  | inl e ↦ absurd (omega (arith, v.used t h, subst (λ o. Counted o (refs b os)) e (v.cells b)))
  | inr e ↦ e
]

-- An object more on a thread that has a buffer.
abbrev pub with_ref : ℕ → Cell → Threads → Threads
with_ref b c s = record s { store = update b (some (add_ref c)) s.store }

pub construct_old :
    (t : ℕ) (name : String) (time : ℕ) (s : Threads) (b : ℕ) (c : Cell)
    → s.tb t ≡ some b
    → s.store b ≡ some c
    → construct t name time s ≡ some (b, with_ref b c s)
unfolding construct ensure at_cell
construct_old t name time s b c h k = rw (construct, ensure, h, h, k) refl

pub old-IsConsistent :
    (t b : ℕ) (s : Threads) (os : List Object) (c : Cell)
    → IsConsistent s os
    → s.tb t ≡ some b
    → s.store b ≡ some c
    → IsConsistent (with_ref b c s) (record { thread = t; buffer = b } ∷ os)
old-IsConsistent t b s os c v h k = record {
  held = λ i e. held i e;
  used = λ u e. ground (arith, v.used u e);
  own = v.own;
  cells =
      update_cases (λ j o. Counted o (refs j (record { thread = t; buffer = b } ∷ os))) b s.store
        (rw (==_refl b)
          (Counted-add_ref c (refs b os) (subst (λ o. Counted o (refs b os)) k (v.cells b))))
        (λ j n. rw n (v.cells j));
  listed =
      update_cases (λ j o. occurs j s.thread_buffers ≡ (if is_live o then 1 else 0)) b s.store
        (v.listed b ∙ rw k refl) (λ j n. v.listed j);
  new =
      update_cases (λ j o. s.unused ≤ j → o ≡ none) b s.store
        (λ l. absurd (let gone = v.new b l in cc)) (λ j n. v.new j);
}
  where
    held :
        (i : ℕ) {o : Object}
        → get_elem? (record { thread = t; buffer = b } ∷ os) i ≡ some o
        → s.tb o.thread ≡ some o.buffer
    held zero e = cc
    held (suc i) e = v.held i e
