-- ===== src/Sim/PifoNaive/Step.antt =====
-- A whole step of `PIFO_Naive`.
use homa_nic.Prelude.{
  ℕ, zero, suc, ◌+◌, ◌≤◌, ◌<◌, ◌^◌, ◌≡◌, refl, sym, subst, ◌∙◌, Bool, true, false,
}
use homa_nic.Prelude.{lt_of_get_elem?, List, [], ◌∷◌, length, arith, if◌then◌else◌}
use homa_nic.Prelude.{Returns, Ends->>=, Bool-cases, inl, inr, ltb, leb, ◌==◌, ◌&&◌, ◌||◌, not}
use homa_nic.Prelude.Int.{ℤ, pos, negsuc, ◌+ℤ◌, ltb_ℤ, eq_ℤ, to_u64}
use homa_nic.Sim.Entry.{Entry}
use homa_nic.Sim.Multiset.{count, SameEntries, count-last}
use homa_nic.Sim.Base.{Base, Object}
use homa_nic.Sim.PifoNaive.{
  Own, Slot, minus_one, insert_at, resume, advance, wants_front, promote, put_down_at, take_last,
  demote, step, note_active, note_lowwater,
}
use homa_nic.Sim.PifoNaive.Places.{
  entries, flags, count-insert_at, length-flags, flag-insert_before, flag-insert_self,
}
use homa_nic.Sim.PifoNaive.Contents.{
  IsValid, InRange, Unsorted, Conserved, Conserved-trans, contents, count-contents, held_count,
}
use homa_nic.Sim.PifoNaive.Advance.{advance-Conserved}
use homa_nic.Sim.PifoNaive.Moves.{resume-Conserved, promote-Conserved, wants_front-Returns}

Unsorted-put_down :
    (f : ℤ) (n : ℕ) (e : Entry) (l : List Slot)
    → Unsorted f l
    → n ≤ length l
    → Unsorted
        (if not (n == length l) && (ltb_ℤ (pos n) f || eq_ℤ f minus_one) then pos n else f)
        (insert_at n (e, n == length l) l)
Unsorted-put_down f n e l u h =
    elim (Bool-cases (not (n == length l) && (ltb_ℤ (pos n) f || eq_ℤ f minus_one))) [
      | inl q ↦
          let inside : (n == length l) ≡ false = ground arith in
          rw (q, inside) (flag-insert_self n (e, false) l h)
      | inr q ↦ rw q (kept f q u)
    ]
  where
    kept :
        (f : ℤ)
        → (not (n == length l) && (ltb_ℤ (pos n) f || eq_ℤ f minus_one)) ≡ false
        → Unsorted f l
        → Unsorted f (insert_at n (e, n == length l) l)
    kept (pos j) q u =
        let in_list : j < length l = omega (arith, lt_of_get_elem? (flags l) j u, length-flags l) in
        elim (Bool-cases (ltb j n)) [
          | inl before ↦ flag-insert_before n j (e, n == length l) l (ground arith) in_list ∙ u
          | inr other ↦
              let same : j ≡ n = ground arith in
              let inside : (n == length l) ≡ false = ground arith in
              rw (same, inside) (flag-insert_self n (e, false) l h)
        ]
    kept (negsuc zero) q u = tt
    kept (negsuc (suc k)) q u = absurd u

-- The held entry is in the backing list, and the sorted queue is as it was.
abbrev PutDown : Own → Own → Type 0
PutDown o o' =
    (o'.hwqueue ≡ o.hwqueue)
    × (o'.active ≡ o.active)
    × Unsorted o'.firstunsort o'.backing
    × ((p : Entry → Bool)
        → count p (entries o'.backing) ≡ count p (entries o.backing) + held_count p o.scan o.held)

put_down_at-PutDown :
    (z : ℤ) (o : Own) → IsValid o → o.scan ≡ z → Returns (PutDown o) (put_down_at z o)
unfolding put_down_at
put_down_at-PutDown (pos n) o v s =
    let h : n ≤ length o.backing = subst (λ z. InRange z (length o.backing)) s v.scan_in in
    let q : leb n (length o.backing) ≡ true = ground arith in
    rw q (
      refl,
      refl,
      Unsorted-put_down o.firstunsort n o.held o.backing v.unsorted h,
      λ p. rw s (omega (arith, count-insert_at p n (o.held, n == length o.backing) o.backing)),
    )
put_down_at-PutDown (negsuc zero) o v s = (refl, refl, v.unsorted, λ p. rw s (omega arith))
put_down_at-PutDown (negsuc (suc k)) o v s =
    absurd (subst (λ z. InRange z (length o.backing)) s v.scan_in)

take_last-Conserved :
    (hw : List Entry) (o o' : Own)
    → o.hwqueue ≡ hw
    → 0 < length hw
    → PutDown o o'
    → Returns (Conserved o) (take_last hw o')
unfolding take_last
take_last-Conserved [] o o' e h d = absurd (omega arith)
take_last-Conserved (x ∷ hw) o o' e h (_, a, u, c) = (
  record { scan_in = omega arith; unsorted = u },
  λ p. rw e (omega (arith, c p, count-last p x hw)),
  a,
)

demote-Conserved :
    (n : ℕ) (o : Own) → n < 2 ^ 31 → IsValid o → Returns (Conserved o) (demote (pos n) o)
unfolding demote to_u64 ◌+ℤ◌
demote-Conserved n o small v =
    elim (Bool-cases (leb (to_u64 (pos n +ℤ pos 1)) (length o.hwqueue))) [
      | inl q ↦ rw q (
          Ends->>= _ (PutDown o) (Conserved o) (put_down_at o.scan o) _
            (put_down_at-PutDown o.scan o v refl)
            (λ o' d. take_last-Conserved o'.hwqueue o o' (sym d.0) (rw d.0 (ground arith)) d))
      | inr q ↦ rw q (v, λ p. refl, refl)
    ]

-- A step changes the queue's own statistics only.
abbrev pub SameBase : Base → Base → Type 0
SameBase b c =
    (c.gqueue ≡ b.gqueue)
    × (c.id ≡ b.id)
    × (c.buff ≡ b.buff)
    × (c.simstats ≡ b.simstats)
    × (c.gstats ≡ b.gstats)

note_active_same : (a : ℤ) (b : Base) → SameBase b (note_active a b)
unfolding note_active
note_active_same a b = ground arith

note_lowwater_same : (front : Bool) (b : Base) → SameBase b (if front then note_lowwater b else b)
unfolding note_lowwater
note_lowwater_same true b = (refl, refl, refl, refl, refl)
note_lowwater_same false b = (refl, refl, refl, refl, refl)

noted_same :
    (front : Bool) (a : ℤ) (b : Base)
    → SameBase b (if front then note_lowwater (note_active a b) else note_active a b)
noted_same front a b =
    let l = note_lowwater_same front (note_active a b) in
    let m = note_active_same a b in (l.0 ∙ m.0, l.1 ∙ m.1, l.2 ∙ m.2, l.3 ∙ m.3, l.4 ∙ m.4)

promoted :
    (front : Bool) (o : Own) → IsValid o → Conserved o (if front then promote o.backing o else o)
promoted true o v = promote-Conserved o.backing o refl v
promoted false o v = (v, λ p. refl, refl)

-- With at least 8 priorities a step of a valid queue fails no assertion and reads inside its
-- lists. The queue stays valid and holds the same messages, as often, in another arrangement.
pub step-conserves :
    (n ts : ℕ) (s : Object Own)
    → 8 ≤ n
    → n < 2 ^ 31
    → IsValid s.own
    → Returns
        (λ t.
          IsValid t.own
          × SameEntries (contents t.own) (contents s.own)
          × (t.own.active ≡ s.own.active)
          × SameBase s.base t.base)
        (step (pos n) ts s)
unfolding step
step-conserves n ts s h k v =
    Ends->>= _ (Conserved s.own) _ (resume s.own) _ (resume-Conserved s.own v) (λ o c.
      Ends->>= _ (Conserved o) _ (advance o) _ (advance-Conserved o c.0) (λ o' c'.
        Ends->>= _ (λ _. Unit {0}) _ (wants_front (pos n) o'.hwqueue o'.backing) _
          (wants_front-Returns n o'.hwqueue o'.backing h k)
          (λ front _.
            let o'' : Own = if front then promote o'.backing o' else o' in
            let m : Conserved o' o'' = promoted front o' c'.0 in
            Ends->>= _ (Conserved o'') _ (demote (pos n) o'') _ (demote-Conserved n o'' k m.0)
              (λ u d.
                let all : Conserved s.own u =
                  Conserved-trans s.own o u c
                    (Conserved-trans o o' u c' (Conserved-trans o' o'' u m d)) in
                (
                  all.0,
                  λ p. count-contents p u ∙ all.1 p ∙ sym (count-contents p s.own),
                  all.2,
                  noted_same front s.own.active s.base,
                )))))
