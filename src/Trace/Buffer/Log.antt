-- ===== src/Trace/Buffer/Log.antt =====
-- What a buffer holds of the events that were recorded in it.
use homa_nic.Prelude.{
  ℕ, zero, suc, ◌+◌, ◌-◌, ◌%◌, ◌≤◌, ◌<◌, ◌≡◌, ◌≢◌, ◌∙◌, refl, sym, ap, subst, true, false, some,
  List, [], ◌∷◌, ◌++◌,
}
use homa_nic.Prelude.{
  arith, leb, length, length-append, get_elem?, drop, All, ◌==◌, Bool-cases, inl, inr,
}
use Prim.Native.String.{String}
use homa_nic.Trace.Buffer.{
  Event, Buffer, is_set, buffer_size, fresh, first_index, next_of, write, record_event, record_all,
}

-- From the index `cur` up to `next_index` the buffer holds these events, the oldest first.
abbrev pub Holds : Buffer → ℕ → List Event → Type 0
Holds b cur [] = cur ≡ b.next_index
Holds b cur (e ∷ es) =
    (b.events cur ≡ e) × (is_set e ≡ true) × (cur ≢ b.next_index) × Holds b (next_of cur) es

-- They are as many as there are slots from `cur` to `next_index`.
pub length-Holds :
    (b : Buffer) (cur : ℕ) (es : List Event)
    → cur < buffer_size
    → b.next_index < buffer_size
    → Holds b cur es
    → length es ≡ (b.next_index + buffer_size - cur) % buffer_size
length-Holds b cur [] h k p = omega arith
length-Holds b cur (e ∷ es) h k p =
    omega (arith, length-Holds b (next_of cur) es (omega arith) k p.3, p.2)

-- The buffer after the events `es`, all of them with a format: each of the last 2 ^ 16 is in its
-- slot, and a slot that none has reached is invalid.
pub record IsLog (es : List Event) (b : Buffer) : Type 0 where
  pub next : b.next_index ≡ length es % buffer_size
  pub slots :
      (k : ℕ)
      → k < length es
      → length es ≤ k + buffer_size
      → get_elem? es k ≡ some (b.events (k % buffer_size))
  pub unused : (i : ℕ) → length es ≤ i → is_set (b.events i) ≡ false

pub fresh-IsLog : (name : String) → IsLog [] (fresh name)
fresh-IsLog name = record { next = refl; slots = λ k h. absurd (omega arith); unused = λ i h. refl }

get_elem?-append :
    (es : List Event) (e : Event) (k : ℕ)
    → k < length es
    → get_elem? (es ++ e ∷ []) k ≡ get_elem? es k
get_elem?-append [] e k h = absurd (omega arith)
get_elem?-append (x ∷ es) e zero h = refl
get_elem?-append (x ∷ es) e (suc k) h = get_elem?-append es e k (omega arith)

get_elem?-append_last :
    (es : List Event) (e : Event) → get_elem? (es ++ e ∷ []) (length es) ≡ some e
get_elem?-append_last [] e = refl
get_elem?-append_last (x ∷ es) e = get_elem?-append_last es e

length-snoc : (es : List Event) (e : Event) → length (es ++ e ∷ []) ≡ suc (length es)
length-snoc es e = omega (arith, length-append es (e ∷ []))

-- A new event replaces the one that was recorded 2 ^ 16 events before it, and no other.
slots_after :
    (es : List Event) (e : Event) (b : Buffer)
    → IsLog es b
    → (k : ℕ) → k < suc (length es)
    → suc (length es) ≤ k + buffer_size
    → get_elem? (es ++ e ∷ []) k ≡ some (write b.next_index e b.events (k % buffer_size))
slots_after es e b v k h l = elim (Bool-cases (k == length es)) [
  | inl p ↦
      let last : k ≡ length es = ground arith in
      let hit : (k % buffer_size == b.next_index) ≡ true = ground (arith, v.next, last) in
      rw (hit, last) (get_elem?-append_last es e)
  | inr p ↦
      let old : k < length es = ground (arith, h) in
      let miss : (k % buffer_size == b.next_index) ≡ false = ground (arith, v.next, old, l) in
      rw miss (get_elem?-append es e k old ∙ v.slots k old (omega arith))
]

record_event-IsLog :
    (es : List Event) (e : Event) (b : Buffer)
    → IsLog es b
    → IsLog (es ++ e ∷ []) (record_event false e b)
unfolding record_event
record_event-IsLog es e b v = record {
  next = omega (arith, v.next, length-snoc es e);
  slots = λ k h l.
      slots_after es e b v k (omega (arith, h, length-snoc es e))
        (omega (arith, l, length-snoc es e));
  unused = λ i h.
      let n : suc (length es) ≤ i = omega (arith, h, length-snoc es e) in
      let miss : (i == b.next_index) ≡ false = ground (arith, v.next, n) in
      rw miss (v.unused i (omega arith));
}

append_assoc : (xs ys zs : List Event) → (xs ++ ys) ++ zs ≡ xs ++ (ys ++ zs)
append_assoc [] ys zs = refl
append_assoc (x ∷ xs) ys zs = ap (λ t. x ∷ t) (append_assoc xs ys zs)

append_nil : (xs : List Event) → xs ++ [] ≡ xs
append_nil [] = refl
append_nil (x ∷ xs) = ap (λ t. x ∷ t) (append_nil xs)

record_all-IsLog :
    (old es : List Event) (b : Buffer) → IsLog old b → IsLog (old ++ es) (record_all false es b)
unfolding record_all
record_all-IsLog old [] b v = rw (append_nil old) v
record_all-IsLog old (e ∷ es) b v =
    rw (← append_assoc old (e ∷ []) es)
      (record_all-IsLog (old ++ e ∷ []) es (record_event false e b) (record_event-IsLog old e b v))

pub recorded : (name : String) (es : List Event) → IsLog es (record_all false es (fresh name))
recorded name es = record_all-IsLog [] es (fresh name) (fresh-IsLog name)

-- The events have formats, which the macro `tt` gives them.
abbrev pub Formatted : List Event → Type 0
Formatted = All (λ e. is_set e ≡ true)

drop-cons :
    (es : List Event) (k : ℕ) {e : Event}
    → get_elem? es k ≡ some e
    → drop k es ≡ e ∷ drop (suc k) es
drop-cons [] k h = absurd (cc)
drop-cons (x ∷ es) zero h = cc
drop-cons (x ∷ es) (suc k) h = drop-cons es k h

Formatted-get :
    (es : List Event) (k : ℕ) {e : Event} → Formatted es → get_elem? es k ≡ some e → is_set e ≡ true
Formatted-get [] k f h = absurd (cc)
Formatted-get (x ∷ es) zero {e = e} f h =
    let same : x ≡ e = cc in subst (λ d. is_set d ≡ true) same f.0
Formatted-get (x ∷ es) (suc k) f h = Formatted-get es k f.1 h

drop_all : (es : List Event) → drop (length es) es ≡ []
drop_all [] = refl
drop_all (x ∷ es) = drop_all es

-- From the slot of the event `k` the buffer holds that event and the later ones.
pub IsLog-Holds :
    (es : List Event) (b : Buffer)
    → IsLog es b
    → Formatted es
    → (left k : ℕ) → k + left ≡ length es
    → left < buffer_size
    → Holds b (k % buffer_size) (drop k es)
IsLog-Holds es b v f zero k h l =
    let e : k ≡ length es = omega arith in rw (e, drop_all es) (sym v.next)
IsLog-Holds es b v f (suc left) k h l =
    let here = v.slots k (omega arith) (omega arith) in
    let step : next_of (k % buffer_size) ≡ suc k % buffer_size = omega arith in
    rw (drop-cons es k here) (
      refl,
      Formatted-get es k f here,
      (λ p. omega (arith, p, v.next)),
      rw step (IsLog-Holds es b v f left (suc k) (omega arith) (omega arith)),
    )

-- The oldest event that a printout takes from a full buffer is the one after the next slot.
oldest :
    (es : List Event) (b : Buffer)
    → IsLog es b
    → Formatted es
    → first_index b ≡ (length es - (buffer_size - 1)) % buffer_size
unfolding first_index
oldest es b v f = elim (Bool-cases (leb (buffer_size - 1) (length es))) [
  | inl p ↦
      let k : ℕ = length es - (buffer_size - 1) in
      let many : buffer_size - 1 ≤ length es = ground arith in
      let set = Formatted-get es k f (v.slots k (omega arith) (omega arith)) in
      let same : next_of b.next_index ≡ k % buffer_size = omega (arith, v.next, many) in
      rw (same, set) refl
  | inr p ↦
      let few : suc (length es) < buffer_size = ground arith in
      let same : next_of b.next_index ≡ suc (length es) = omega (arith, v.next, few) in
      rw (same, v.unused (suc (length es)) (omega arith)) (omega arith)
]

-- A buffer that was recorded in while the trace was not frozen holds, from the slot where a
-- printout begins, the last 2 ^ 16 - 1 of the events that were recorded, or all of them when they
-- are fewer, in their order.
pub record-Holds :
    (name : String) (es : List Event)
    → Formatted es
    → let b = record_all false es (fresh name) in
      Holds b (first_index b) (drop (length es - (buffer_size - 1)) es)
record-Holds name es f =
    let b : Buffer = record_all false es (fresh name) in
    let v : IsLog es b = recorded name es in
    rw (oldest es b v f) (
      IsLog-Holds es b v f (length es - (length es - (buffer_size - 1))) _ (omega arith)
        (omega arith))
