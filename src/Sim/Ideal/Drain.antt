-- ===== src/Sim/Ideal/Drain.antt =====
-- How long an `Ideal` queue takes to empty when nothing arrives. model/qsim.cc has a loop of a
-- departure and a step in each slot until the queue is empty; main enters it in the snapshot mode,
-- and it calls only the virtual functions, which are those of `Ideal` here.
use homa_nic.Prelude.{Never}
use homa_nic.Prelude.{ℕ, zero, suc, ◌+◌, ◌≤◌, ◌<◌, ◌^◌, ◌≡◌, ◌∙◌, inl, inr, refl, ap, false}
use homa_nic.Prelude.{
  List, [], ◌∷◌, length, arith, Returns, Ends, Ends->>=, Ends-and, Ends-Any, Ends-map, ◌==◌,
  Bool-cases, if◌then◌else◌, All,
}
use homa_nic.Prelude.Int.{pos, pos_part, -ℤ_parts}
use homa_nic.Sim.Entry.{Entry}
use homa_nic.Sim.Multiset.{All-insert}
use homa_nic.Sim.Base.{add64, Base, Object, departure, serve, is_last, sent, chunks}
use homa_nic.Sim.Base.Account.{SameQuality, after_first, after_first_same}
use homa_nic.Sim.Qsim.{snapshot_slot, snapshot_loop}
use homa_nic.Sim.Ideal.{Own, ideal, step, empty, occupy, note_size}
use homa_nic.Sim.Ideal.Invariant.{
  IsValid, Books, Kept, Kept-trans, Unsent, busy, rest, send_first, serve-IsValid, departure-Kept,
}
use homa_nic.Sim.Ideal.Arrivals.{step-Kept}
use homa_nic.Sim.Ideal.Service.{backlog, busy_lem, backlog-rest}

-- A message is at most as long as an `int` can say.
abbrev pub Fits : List Entry → Type 0
Fits hw = All (λ e. pos_part e.remaining < 2 ^ 31) hw

-- The slots until the queue is empty, at most: one for each chunk that waits or is being sent,
-- and one when the service node is free.
unfoldable pub work : Base → Own → ℕ
work b hw = backlog hw + b.buff + (if b.buff == 0 then 1 else 0)

Fits-rest : (e : Entry) (hw : List Entry) → Fits (e ∷ hw) → Fits (rest e hw)
Fits-rest e hw h = elim (Bool-cases (is_last e)) [
  | inl p ↦ rw p h.1
  | inr p ↦ rw p (
      All-insert (λ x. pos_part x.remaining < 2 ^ 31) (sent e) hw
        (ground (arith, h.0, -ℤ_parts e.remaining (pos chunks))) h.1)
]

-- The work that is left when a packet has just gone out, and the work there was.
work_sent :
    (c : Base) (e : Entry) (hw : List Entry)
    → Unsent e
    → pos_part e.remaining < 2 ^ 31
    → c.buff ≡ busy e
    → work c (rest e hw) ≡ backlog (e ∷ hw)
unfolding work
work_sent c e hw u small h =
    ground (arith, h, u, small, busy_lem e u small, backlog-rest e hw u small)

backlog-lt-work : (b : Base) (hw : Own) → backlog hw < work b hw
unfolding work
backlog-lt-work b hw = ground arith

served :
    (ts : ℕ) (b : Base) (hw : Own)
    → ((serve ts b).buff == 0) ≡ false
    → work (serve ts b) hw < work b hw
unfolding work serve
served ts b hw p = ground arith

-- A departure brings a queue that is not empty nearer to that.
abbrev Nearer : Base → Own → Object Own → Type 0
Nearer b hw t = Fits t.own × (work t.base t.own < work b hw)

departure-Nearer :
    (ts : ℕ) (b : Base) (e : Entry) (hw : Own)
    → IsValid b (e ∷ hw)
    → Fits (e ∷ hw)
    → Returns (Nearer b (e ∷ hw)) (departure ideal ts (record { base = b; own = e ∷ hw }))
unfolding departure
departure-Nearer ts b e hw v f = elim (Bool-cases ((serve ts b).buff == 0)) [
  | inl p ↦
      let c : Base = serve ts b in
      let s = after_first_same ts e hw (record c { buff = busy e }) in
      rw (p, send_first ts e hw c (serve-IsValid ts b (e ∷ hw) v))
        (
          Fits-rest e hw f,
          rw
              (work_sent (after_first ts e hw (record c { buff = busy e })) e hw v.unsent.0 f.0
                s.1.1)
              (backlog-lt-work b (e ∷ hw)),
        )
  | inr p ↦ rw p (f, served ts b (e ∷ hw) p)
]

note_size_buff : (n : ℕ) (b : Base) → (note_size n b).buff ≡ b.buff
unfolding note_size
note_size_buff n b = ground arith

work_same : (b c : Base) (hw hw' : Own) → hw' ≡ hw → c.buff ≡ b.buff → work c hw' ≡ work b hw
unfolding work
work_same b c hw hw' h k = rw (h, k) refl

abbrev Still : Base → Own → Object Own → Type 0
Still b hw t = (t.own ≡ hw) × (t.base.buff ≡ b.buff)

-- A step leaves the messages and the service node as they are.
step-Nearer :
    (ts : ℕ) (b : Base) (hw : Own)
    → Ends (λ _. Unit {0}) (Still b hw) (step ts (record { base = b; own = hw }))
unfolding step
step-Nearer ts b hw =
    Ends->>= _ (λ _. Unit {0}) _ (occupy hw (note_size (length hw) b).slotstats) _ (Ends-Any _)
      (λ ss h. (refl, note_size_buff (length hw) b))

-- What a slot does to a valid queue that is not empty.
abbrev Drained : Base → Own → Object Own → Type 0
Drained b hw t = Kept b hw t × Nearer b hw t

stepped-Drained :
    (b : Base) (hw : Own) (t u : Object Own)
    → Drained b hw t
    → Kept t.base t.own u
    → Still t.base t.own u
    → Drained b hw u
stepped-Drained b hw t u d k s = (
  Kept-trans b hw t u d.0 k,
  (rw s.0 d.1.0, rw (work_same t.base u.base t.own u.own s.0 s.1) d.1.1),
)

slot-Drained :
    (ts : ℕ) (b : Base) (e : Entry) (hw : Own)
    → IsValid b (e ∷ hw)
    → Fits (e ∷ hw)
    → length (e ∷ hw) ≤ 1024
    → Returns (Drained b (e ∷ hw)) (snapshot_slot ideal ts (record { base = b; own = e ∷ hw }))
unfolding snapshot_slot
slot-Drained ts b e hw v f n =
    let s : Object Own = record { base = b; own = e ∷ hw } in
    Ends->>= _ (Drained b (e ∷ hw)) _ (departure ideal ts s) _
      (Ends-and Never Never (Kept b (e ∷ hw)) (Nearer b (e ∷ hw)) (departure ideal ts s)
        (departure-Kept ts b (e ∷ hw) v) (departure-Nearer ts b e hw v f))
      (λ t d.
        Ends-map Never (λ u. Kept t.base t.own u × Still t.base t.own u) _ (step ts t)
          (λ u k. stepped-Drained b (e ∷ hw) t u d k.0 k.1)
          (Ends-and Never _ (Kept t.base t.own) (Still t.base t.own) (step ts t)
            (step-Kept Never ts t.base t.own d.0.0 (inl (omega (arith, n, d.0.3))))
            (step-Nearer ts t.base t.own)))

-- What is left of a queue that has been emptied.
abbrev Empty : Base → Own → Object Own → Type 0
Empty b hw t = Kept b hw t × (t.own ≡ [])

drain-Empty :
    (fuel ts : ℕ) (b : Base) (hw : Own)
    → IsValid b hw
    → Fits hw
    → length hw ≤ 1024
    → work b hw ≤ fuel
    → Returns (Empty b hw) (snapshot_loop ideal fuel ts (record { base = b; own = hw }))
unfolding snapshot_loop empty
drain-Empty zero ts b hw v f n w = absurd (omega (arith, backlog-lt-work b hw))
drain-Empty (suc fuel) ts b [] v f n w =
    ((v, (refl, refl, refl, refl), refl, omega arith, λ h. h), refl)
drain-Empty (suc fuel) ts b (e ∷ hw) v f n w =
    Ends->>= Never (Drained b (e ∷ hw)) _
      (snapshot_slot ideal ts (record { base = b; own = e ∷ hw })) _ (slot-Drained ts b e hw v f n)
      (λ t d.
        Ends-map Never _ _ (snapshot_loop ideal fuel (add64 ts 1) t)
          (λ u k. (Kept-trans b (e ∷ hw) t u d.0 k.0, k.1))
          (drain-Empty fuel (add64 ts 1) t.base t.own d.0.0 d.1.0 (omega (arith, n, d.0.3))
            (omega (arith, w, d.1.1))))

-- A valid `Ideal` queue of at most 1024 messages, each of which fits an `int`, is empty after at
-- most as many slots without arrivals as it has chunks to send and being sent, and one more when
-- the service node is free. Its `gqueue` is empty then too, the slots count no inaccuracy and no
-- wasted slot and record no violation, and all messages are complete, when before every message
-- was complete or queued.
pub drain_completes :
    (fuel ts : ℕ) (b : Base) (hw : Own)
    → IsValid b hw
    → Fits hw
    → length hw ≤ 1024
    → Books b hw
    → work b hw ≤ fuel
    → Returns
        (λ t.
          (t.own ≡ [])
          × (t.base.gqueue ≡ [])
          × SameQuality b t.base
          × (t.base.simstats.comps ≡ b.id))
        (snapshot_loop ideal fuel ts (record { base = b; own = hw }))
drain_completes fuel ts b hw v f n h w =
    Ends-map Never (Empty b hw) _ (snapshot_loop ideal fuel ts (record { base = b; own = hw }))
      (λ t d. (d.1, d.0.0.same ∙ d.1, d.0.1, omega (arith, (d.0.4 h).1, ap length d.1, d.0.2)))
      (drain-Empty fuel ts b hw v f n w)
