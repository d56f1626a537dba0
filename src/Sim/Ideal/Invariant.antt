-- ===== src/Sim/Ideal/Invariant.antt =====
-- The invariant of `Ideal`: its multiset and the reference multiset `gqueue` are the same list.
use homa_nic.Prelude.{ℕ, suc, ◌+◌, ◌≤◌, ◌<◌, ◌^◌, ◌≡◌, refl, ◌∙◌, true, false, not}
use homa_nic.Prelude.{List, [], ◌∷◌, arith, length, if◌then◌else◌, ok, Returns}
use homa_nic.Prelude.{All, Bool-cases, inl, inr, ◌==◌}
use homa_nic.Prelude.Int.{pos, ltb_ℤ, ◌<ℤ◌, ◌≤ℤ◌, -ℤ_parts, ◌+ℤ◌, to_u64}
use homa_nic.Sim.Entry.{Entry}
use homa_nic.Sim.Multiset.{
  Sorted, Distinct, insert, All-insert, insert-Sorted, insert-Distinct, not_equiv_of_ids,
  length-insert,
}
use homa_nic.Sim.Base.{Base, Object, departure, send, is_last, sent, serve, chunks}
use homa_nic.Sim.Base.Account.{
  SameQuality, after_first, account_first, after_first_same, gqueue-after_first, comps-after_first,
}
use homa_nic.Sim.Ideal.{Own, ideal, dequeue, empty}

-- Something is left to send, and no more than the message is long.
abbrev pub Unsent : Entry → Type 0
Unsent e = (pos 0 <ℤ e.remaining) × (e.remaining ≤ℤ e.length)

pub record IsValid (b : Base) (hw : Own) : Type 0 where
  pub same : b.gqueue ≡ hw
  pub sorted : Sorted hw
  pub distinct : Distinct hw
  pub below : All (λ e. e.id < b.id) hw
  pub unsent : All Unsent hw
  pub slots : length b.slotstats ≡ 1024
  pub word : b.id < 2 ^ 64

-- With the statistics switched on, every message that arrived is complete or queued.
abbrev pub Books : Base → Own → Type 0
Books b hw = (b.gstats ≡ true) × (b.simstats.comps + length hw ≡ b.id)

pub more_to_send : (e : Entry) → ltb_ℤ (pos 0) (sent e).remaining ≡ not (is_last e)
more_to_send e = ground arith

sent-Unsent : (e : Entry) → Unsent e → is_last e ≡ false → Unsent (sent e)
sent-Unsent e u p = ground (arith, -ℤ_parts e.remaining (pos 24))

-- The queue behind a message that has been sent, and that comes back when more is left of it.
abbrev pub rest : Entry → List Entry → List Entry
rest e hw = if is_last e then hw else insert (sent e) hw

module _ (e : Entry) (hw : List Entry) (d : Distinct (e ∷ hw)) (s : Sorted (e ∷ hw)) where
  rest-Sorted : Sorted (rest e hw)
  rest-Sorted = elim (Bool-cases (is_last e)) [
    | inl p ↦ rw p s.1
    | inr p ↦ rw p (insert-Sorted (sent e) hw (not_equiv_of_ids (sent e) hw d.0) s.1)
  ]

  rest-Distinct : Distinct (rest e hw)
  rest-Distinct = elim (Bool-cases (is_last e)) [
    | inl p ↦ rw p d.1
    | inr p ↦ rw p (insert-Distinct (sent e) hw d.0 d.1)
  ]

rest-below :
    (n : ℕ) (e : Entry) (hw : List Entry)
    → All (λ x. x.id < n) (e ∷ hw)
    → All (λ x. x.id < n) (rest e hw)
rest-below n e hw h = elim (Bool-cases (is_last e)) [
  | inl p ↦ rw p h.1
  | inr p ↦ rw p (All-insert (λ x. x.id < n) (sent e) hw h.0 h.1)
]

rest-Unsent : (e : Entry) (hw : List Entry) → All Unsent (e ∷ hw) → All Unsent (rest e hw)
rest-Unsent e hw h = elim (Bool-cases (is_last e)) [
  | inl p ↦ rw p h.1
  | inr p ↦ rw p (All-insert Unsent (sent e) hw (sent-Unsent e h.0 p) h.1)
]

length-rest : (e : Entry) (hw : List Entry) → length (rest e hw) ≤ suc (length hw)
length-rest e hw = ground (arith, length-insert (sent e) hw)

-- The chunks that the service node is busy with after `e` has been dequeued.
abbrev pub busy : Entry → ℕ
busy e = if is_last e then to_u64 ((sent e).remaining +ℤ pos chunks) else chunks

pub dequeue_first :
    (e : Entry) (hw : List Entry) (b : Base)
    → dequeue (record { base = b; own = e ∷ hw })
      ≡ (e, record { base = record b { buff = busy e }; own = rest e hw })
unfolding dequeue
dequeue_first e hw b = ground (arith, more_to_send e)

-- What an operation other than `arrival` keeps of a valid queue.
abbrev pub Kept : Base → Own → Object Own → Type 0
Kept b hw t =
    IsValid t.base t.own
    × SameQuality b t.base
    × (t.base.id ≡ b.id)
    × (length t.own ≤ length hw)
    × (Books b hw → Books t.base t.own)

pub Kept-trans :
    (b : Base) (hw : Own) (t u : Object Own) → Kept b hw t → Kept t.base t.own u → Kept b hw u
Kept-trans b hw t u h k = (
  k.0,
  (k.1.0 ∙ h.1.0, k.1.1 ∙ h.1.1, k.1.2 ∙ h.1.2, k.1.3 ∙ h.1.3),
  k.2 ∙ h.2,
  omega (arith, h.3, k.3),
  λ x. k.4 (h.4 x),
)

same-IsValid :
    (b c : Base) (e : Entry) (hw : List Entry)
    → IsValid b (e ∷ hw)
    → c.gqueue ≡ rest e hw
    → c.id ≡ b.id
    → c.slotstats ≡ b.slotstats
    → IsValid c (rest e hw)
same-IsValid b c e hw v g i t = record {
  same = g;
  sorted = rest-Sorted e hw v.distinct v.sorted;
  distinct = rest-Distinct e hw v.distinct v.sorted;
  below = rw i (rest-below b.id e hw v.below);
  unsent = rest-Unsent e hw v.unsent;
  slots = rw t v.slots;
  word = rw i v.word;
}

pub send_first :
    (ts : ℕ) (e : Entry) (hw : List Entry) (b : Base)
    → IsValid b (e ∷ hw)
    → send ideal ts (record { base = b; own = e ∷ hw })
      ≡ ok (record { base = after_first ts e hw (record b { buff = busy e }); own = rest e hw })
unfolding send empty
send_first ts e hw b v = rw (dequeue_first e hw b) (
    rw
      (account_first ts e hw (record b { buff = busy e }) v.same v.sorted
        (omega (arith, v.unsent.0)))
      refl)

Books-first :
    (ts : ℕ) (e : Entry) (hw : List Entry) (b : Base)
    → IsValid b (e ∷ hw)
    → Books b (e ∷ hw)
    → Books (after_first ts e hw (record b { buff = busy e })) (rest e hw)
Books-first ts e hw b v h =
    let c : Base = record b { buff = busy e } in
    let s = after_first_same ts e hw c in
    let g : c.gstats ≡ true = h.0 in
    let i : c.id ≡ b.id = refl in
    let w = v.word in
    (
      s.1.4 ∙ g,
      ground (arith, h.1, s.1.0, w, comps-after_first ts e hw c g, length-insert (sent e) hw),
    )

send-Kept :
    (ts : ℕ) (b : Base) (hw : Own)
    → IsValid b hw
    → Returns (Kept b hw) (send ideal ts (record { base = b; own = hw }))
unfolding send empty
send-Kept ts b [] v = (v, (refl, refl, refl, refl), refl, omega arith, λ h. h)
send-Kept ts b (e ∷ hw) v =
    let b' : Base = record b { buff = busy e } in
    let s = after_first_same ts e hw b' in
    rw (send_first ts e hw b v) (
      same-IsValid b (after_first ts e hw b') e hw v (gqueue-after_first ts e hw b') s.1.0 s.1.2,
      s.0,
      s.1.0,
      length-rest e hw,
      Books-first ts e hw b v,
    )

pub serve-IsValid : (ts : ℕ) (b : Base) (hw : Own) → IsValid b hw → IsValid (serve ts b) hw
unfolding serve
serve-IsValid ts b hw v = record {
  same = v.same;
  sorted = v.sorted;
  distinct = v.distinct;
  below = v.below;
  unsent = v.unsent;
  slots = v.slots;
  word = v.word;
}

-- A departure from a valid queue fails no assertion and sends the best message.
pub departure-Kept :
    (ts : ℕ) (b : Base) (hw : Own)
    → IsValid b hw
    → Returns (Kept b hw) (departure ideal ts (record { base = b; own = hw }))
unfolding departure
departure-Kept ts b hw v = elim (Bool-cases ((serve ts b).buff == 0)) [
  | inl p ↦ rw p (send-Kept ts (serve ts b) hw (serve-IsValid ts b hw v))
  | inr p ↦ rw p (serve-IsValid ts b hw v, (refl, refl, refl, refl), refl, omega arith, λ h. h)
]
