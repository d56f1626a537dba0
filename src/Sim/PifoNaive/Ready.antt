-- ===== src/Sim/PifoNaive/Ready.antt =====
-- After a step of `PIFO_Naive` the sorted queue has a message to send, when there is one.
use homa_nic.Prelude.{
  ℕ, zero, suc, ◌+◌, ◌≤◌, ◌<◌, ◌^◌, ◌≡◌, ◌⊎◌, inl, inr, refl, ap, arith, Bool, true, false, leb,
  ◌==◌, if◌then◌else◌, List, [], ◌∷◌, length, Bool-cases,
}
use homa_nic.Prelude.{Any, Ends, Ends->>=, Ends-map, Ends-and, Ends-Any, Ends-of-Returns}
use homa_nic.Prelude.Int.{ℤ, pos, negsuc, to_u64, ◌+ℤ◌, ◌-ℤ◌}
use homa_nic.Sim.Entry.{Entry, less}
use homa_nic.Sim.Multiset.{length-insert, drop_last, count_all}
use homa_nic.Sim.Base.{Object}
use homa_nic.Sim.PifoNaive.{
  Own, Slot, minus_one, elem_at, erase_at, place, exchange, compare_at, advance, advance_at, resume,
  wants_front, promote, put_down_at, take_last, demote, step,
}
use homa_nic.Sim.PifoNaive.Places.{entries, length-insert_at}
use homa_nic.Sim.PifoNaive.Contents.{IsValid, Conserved, tally, held_count}
use homa_nic.Sim.PifoNaive.Advance.{advance-Conserved}
use homa_nic.Sim.PifoNaive.Moves.{resume-Conserved}

-- An entry is in the backing list, or none is held.
abbrev Stored : Own → Type 0
Stored o = (o.scan ≡ minus_one) ⊎ (1 ≤ length o.backing)

compare_at-Stored : (n : ℕ) (x : Slot) (o : Own) → 1 ≤ length o.backing → Stored (compare_at n x o)
unfolding compare_at place exchange
compare_at-Stored n x o h = elim (Bool-cases (less o.held x.0)) [
  | inr q ↦ rw q (inr h)
  | inl q ↦ elim (Bool-cases x.1) [
    | inl s ↦ rw (q, s) (inl refl)
    | inr s ↦
        rw (q, s) (inr (omega (arith, length-insert_at n (o.held, false) (erase_at n o.backing))))
  ]
]

advance_at-Stored : (z : ℤ) (o : Own) → o.scan ≡ z → Ends Any Stored (advance_at z o)
unfolding advance_at
advance_at-Stored (pos n) o e = elim (Bool-cases (leb (length o.backing) n)) [
  | inl q ↦ elim (Bool-cases (n == length o.backing)) [
    | inl t ↦ rw (q, t) (inl refl)
    | inr t ↦ rw (q, t) tt
  ]
  | inr q ↦ rw q (
      Ends->>= Any (λ x. Unit {0}) Stored (elem_at o.backing n) _ (Ends-Any _)
        (λ x u. compare_at-Stored n x o (ground arith)))
]
advance_at-Stored (negsuc zero) o e = inl e
advance_at-Stored (negsuc (suc n)) o e = tt

advance-Stored : (o : Own) → Ends Any Stored (advance o)
unfolding advance
advance-Stored o = advance_at-Stored o.scan o refl

-- The messages, counted.
abbrev pub size : Own → ℕ
size o = tally (λ _. true) o

length-entries : (l : List Slot) → length (entries l) ≡ length l
length-entries [] = refl
length-entries (x ∷ l) = ap suc (length-entries l)

pub size_lem :
    (o : Own)
    → size o ≡ length o.hwqueue + (length o.backing + held_count (λ _. true) o.scan o.held)
size_lem o =
    omega (arith, count_all o.hwqueue, count_all (entries o.backing), length-entries o.backing)

held_none : (z : ℤ) (e : Entry) → z ≡ minus_one → held_count (λ _. true) z e ≡ 0
held_none z e h = rw h refl

Stored-size : (o : Own) → Stored o → 1 ≤ size o → 1 ≤ length o.hwqueue + length o.backing
Stored-size o (inr h) k = omega arith
Stored-size o (inl e) k = omega (arith, size_lem o, held_none o.scan o.held e)

wants_front-Front :
    (n : ℕ) (hw : List Entry) (l : List Slot)
    → 8 ≤ n
    → n < 2 ^ 31
    → 1 ≤ length hw + length l
    → Ends Any
        (λ front. (1 ≤ length hw) ⊎ ((front ≡ true) × (1 ≤ length l)))
        (wants_front (pos n) hw l)
unfolding wants_front
wants_front-Front n (e ∷ hw) l h k s =
    Ends-map Any (λ _. Unit {0}) _ (wants_front (pos n) (e ∷ hw) l) (λ f u. inl (omega arith))
      (Ends-Any _)
wants_front-Front n [] [] h k s = absurd (omega arith)
wants_front-Front n [] (x ∷ l) h k s =
    let q : leb 0 (to_u64 (pos n +ℤ pos 1 -ℤ pos 8)) ≡ true = ground arith in
    rw q (inr (refl, omega arith))

-- Something is in the sorted queue.
abbrev pub Ready : Own → Type 0
Ready o = 1 ≤ length o.hwqueue

promoted : (l : List Slot) (o : Own) → (1 ≤ length o.hwqueue) ⊎ (1 ≤ length l) → Ready (promote l o)
unfolding promote
promoted [] o (inl h) = h
promoted [] o (inr h) = absurd (omega arith)
promoted (x ∷ l) o h = omega (arith, length-insert x.0 o.hwqueue)

promote-Ready :
    (front : Bool) (o : Own)
    → (1 ≤ length o.hwqueue) ⊎ ((front ≡ true) × (1 ≤ length o.backing))
    → Ready (if front then promote o.backing o else o)
promote-Ready true o (inl h) = promoted o.backing o (inl h)
promote-Ready true o (inr (e, h)) = promoted o.backing o (inr h)
promote-Ready false o (inl h) = h
promote-Ready false o (inr (e, h)) = absurd (cc)

put_down_at-hwqueue : (z : ℤ) (o : Own) → Ends Any (λ o'. o'.hwqueue ≡ o.hwqueue) (put_down_at z o)
unfolding put_down_at
put_down_at-hwqueue (pos n) o = elim (Bool-cases (leb n (length o.backing))) [
  | inl q ↦ rw q refl
  | inr q ↦ rw q tt
]
put_down_at-hwqueue (negsuc zero) o = refl
put_down_at-hwqueue (negsuc (suc n)) o = tt

length-drop_last : (x : Entry) (xs : List Entry) → length (drop_last x xs) ≡ length xs
unfolding drop_last
length-drop_last x [] = refl
length-drop_last x (y ∷ ys) = ap suc (length-drop_last y ys)

take_last-Ready : (hw : List Entry) (o : Own) → 2 ≤ length hw → Ends Any Ready (take_last hw o)
unfolding take_last
take_last-Ready [] o h = tt
take_last-Ready (x ∷ hw) o h = omega (arith, length-drop_last x hw)

demote-Ready : (n : ℕ) (o : Own) → 8 ≤ n → n < 2 ^ 31 → Ready o → Ends Any Ready (demote (pos n) o)
unfolding demote to_u64 ◌+ℤ◌
demote-Ready n o h k r = elim (Bool-cases (leb (to_u64 (pos n +ℤ pos 1)) (length o.hwqueue))) [
  | inr q ↦ rw q r
  | inl q ↦ rw q (
      Ends->>= Any (λ o'. o'.hwqueue ≡ o.hwqueue) Ready (put_down_at o.scan o) _
        (put_down_at-hwqueue o.scan o)
        (λ o' e. take_last-Ready o'.hwqueue o' (rw e (ground arith))))
]

-- With at least 8 priorities, a step of a valid queue that holds a message leaves one in the sorted
-- queue, so that the next departure sends a packet.
pub step-Ready :
    (n ts : ℕ) (s : Object Own)
    → 8 ≤ n
    → n < 2 ^ 31
    → IsValid s.own
    → 1 ≤ size s.own
    → Ends Any (λ t. Ready t.own) (step (pos n) ts s)
unfolding step
step-Ready n ts s h k v m =
    Ends->>= Any (Conserved s.own) _ (resume s.own) _
      (Ends-of-Returns Any (Conserved s.own) (resume s.own) (resume-Conserved s.own v))
      (λ o c.
        Ends->>= Any (λ o'. Conserved o o' × Stored o') _ (advance o) _
          (Ends-and Any Any (Conserved o) Stored (advance o)
            (Ends-of-Returns Any (Conserved o) (advance o) (advance-Conserved o c.0))
            (advance-Stored o))
          (λ o' a.
            let all : 1 ≤ size o' = omega (arith, a.0.1 (λ _. true), c.1 (λ _. true)) in
            let there : 1 ≤ length o'.hwqueue + length o'.backing = Stored-size o' a.1 all in
            Ends->>= Any
              (λ front. (1 ≤ length o'.hwqueue) ⊎ ((front ≡ true) × (1 ≤ length o'.backing))) _
              (wants_front (pos n) o'.hwqueue o'.backing) _
              (wants_front-Front n o'.hwqueue o'.backing h k there)
              (λ front f.
                let o'' : Own = if front then promote o'.backing o' else o' in
                Ends->>= Any Ready _ (demote (pos n) o'') _
                  (demote-Ready n o'' h k (promote-Ready front o' f)) (λ u r. r))))
