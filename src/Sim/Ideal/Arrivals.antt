-- ===== src/Sim/Ideal/Arrivals.antt =====
-- An arrival and a step of `Ideal`, which write into the statistics table `slotstats`.
use homa_nic.Prelude.{ℕ, zero, suc, ◌≤◌, ◌<◌, ◌^◌, ◌≡◌, ◌≢◌, refl, ap, ◌∙◌, false}
use homa_nic.Prelude.{
  List, [], ◌∷◌, arith, length, Fault, Ends, Ends->>=, or_map, out_of_bounds, ◌⊎◌,
}
use homa_nic.Prelude.{All, All-map, inl, inr}
use homa_nic.Prelude.Int.{ℤ, pos, eq_ℤ, ◌<ℤ◌}
use homa_nic.Sim.Entry.{Entry}
use homa_nic.Sim.Multiset.{
  insert, offset, All-insert, insert-Sorted, insert-Distinct, not_equiv_of_ids, length-insert,
  offset-le-length,
}
use homa_nic.Sim.Base.{Base, Object, Slotstat, Simstat, arrival, update_slot, new_entry, add64}
use homa_nic.Sim.Base.Account.{SameQuality}
use homa_nic.Sim.Ideal.{Own, ideal, enqueue, step, occupy, note_arrival, note_size, mass_before}
use homa_nic.Sim.Ideal.Invariant.{IsValid, Books, Kept, Unsent}

module _ (F : Fault → Type 0) where
  Ends-update_slot :
      (n i : ℕ) (f : Slotstat → Slotstat) (ss : List Slotstat)
      → length ss ≡ n
      → (i < n) ⊎ F out_of_bounds
      → Ends F (λ ts. length ts ≡ n) (update_slot i f ss)
  unfolding update_slot
  Ends-update_slot n i f [] p (inl h) = absurd (omega arith)
  Ends-update_slot n i f [] p (inr h) = h
  Ends-update_slot n zero f (s ∷ ss) p h = p
  Ends-update_slot n (suc i) f (s ∷ ss) p h =
      Ends->>= F _ _ (update_slot i f ss) _
        (Ends-update_slot (length ss) i f ss refl (or_map (λ q. omega arith) h))
        (λ ts q. ap suc q ∙ p)

  Ends-occupy :
      (n : ℕ) (hw : List Entry) (ss : List Slotstat)
      → length ss ≡ n
      → (length hw ≤ n) ⊎ F out_of_bounds
      → Ends F (λ ts. length ts ≡ n) (occupy hw ss)
  unfolding occupy
  Ends-occupy n [] ss p h = p
  Ends-occupy n (e ∷ hw) [] p (inl h) = absurd (omega arith)
  Ends-occupy n (e ∷ hw) [] p (inr h) = h
  Ends-occupy n (e ∷ hw) (s ∷ ss) p h =
      Ends->>= F _ _ (occupy hw ss) _
        (Ends-occupy (length ss) hw ss refl (or_map (λ q. omega arith) h)) (λ ts q. ap suc q ∙ p)

fresh_id : (n : ℕ) (hw : List Entry) → All (λ x. x.id < n) hw → All (λ x. n ≢ x.id) hw
fresh_id n [] h = tt
fresh_id n (x ∷ hw) h = (omega arith, fresh_id n hw h.1)

-- What an arrival does to a valid queue: the new message is in it.
abbrev pub Arrived : Base → Own → Object Own → Type 0
Arrived b hw t =
    IsValid t.base t.own
    × SameQuality b t.base
    × (t.base.id ≡ suc b.id)
    × (length t.own ≡ suc (length hw))
    × (Books b hw → Books t.base t.own)

arrived-IsValid :
    (b : Base) (hw : Own) (e : Entry) (slots : List Slotstat)
    → IsValid b hw
    → suc b.id < 2 ^ 64
    → e.id ≡ b.id
    → Unsent e
    → length slots ≡ 1024
    → IsValid
        (record b { id = add64 b.id 1; gqueue = insert e b.gqueue; slotstats = slots })
        (insert e hw)
arrived-IsValid b hw e slots v small i u l =
    let new : All (λ x. e.id ≢ x.id) hw = rw i (fresh_id b.id hw v.below) in
    record {
      same = ap (insert e) v.same;
      sorted = insert-Sorted e hw (not_equiv_of_ids e hw new) v.sorted;
      distinct = insert-Distinct e hw new v.distinct;
      below =
          All-insert (λ x. x.id < add64 b.id 1) e hw (omega arith)
            (All-map _ _ hw (λ x p. omega arith) v.below);
      unsent = All-insert Unsent e hw u v.unsent;
      slots = l;
      word = omega arith;
    }

pub note_size_same :
    (n : ℕ) (b : Base)
    → SameQuality b (note_size n b)
      × ((note_size n b).id ≡ b.id)
      × ((note_size n b).gqueue ≡ b.gqueue)
      × ((note_size n b).slotstats ≡ b.slotstats)
      × ((note_size n b).gstats ≡ b.gstats)
      × ((note_size n b).simstats ≡ b.simstats)
unfolding note_size
note_size_same n b = ground arith

pub nonzero : (len : ℤ) → pos 0 <ℤ len → eq_ℤ len (pos 0) ≡ false
nonzero len h = ground arith

module _ (F : Fault → Type 0) where
  -- An arrival keeps the queue valid. It writes inside `slotstats` while fewer than 1024 wait.
  pub arrival-Arrived :
      (ts : ℕ) (len : ℤ) (b : Base) (hw : Own)
      → IsValid b hw
      → pos 0 <ℤ len
      → (length hw < 1024) ⊎ F out_of_bounds
      → suc b.id < 2 ^ 64
      → Ends F (Arrived b hw) (arrival ideal ts len (record { base = b; own = hw }))
  unfolding arrival enqueue
  arrival-Arrived ts len b hw v l n small =
      let e : Entry = new_entry ts len b in
      rw (nonzero len l) (
        Ends->>= F (λ ss. length ss ≡ 1024) (Arrived b hw)
          (update_slot (offset e hw) (note_arrival (mass_before (offset e hw) b.buff (insert e hw)))
            b.slotstats)
          _
          (Ends-update_slot F 1024 (offset e hw) _ b.slotstats v.slots
            (or_map (λ q. omega (arith, offset-le-length e hw)) n))
          (λ ss p. (
            arrived-IsValid b hw e ss v small refl (omega arith) p,
            (refl, refl, refl, refl),
            omega arith,
            length-insert e hw,
            λ h. (h.0, omega (arith, length-insert e hw, h.1)),
          )))

  -- A step keeps the queue valid. It writes inside `slotstats` while at most 1024 wait.
  pub step-Kept :
      (ts : ℕ) (b : Base) (hw : Own)
      → IsValid b hw
      → (length hw ≤ 1024) ⊎ F out_of_bounds
      → Ends F (Kept b hw) (step ts (record { base = b; own = hw }))
  unfolding step
  step-Kept ts b hw v n =
      let c : Base = note_size (length hw) b in
      let (q, i, g, t, g', k) = note_size_same (length hw) b in
      Ends->>= F (λ ss. length ss ≡ 1024) (Kept b hw) (occupy hw c.slotstats) _
        (Ends-occupy F 1024 hw c.slotstats (ap length t ∙ v.slots) n)
        (λ ss p. (
          record {
            same = g ∙ v.same;
            sorted = v.sorted;
            distinct = v.distinct;
            below = rw i v.below;
            unsent = v.unsent;
            slots = p;
            word = rw i v.word;
          },
          q,
          i,
          omega arith,
          λ h. (g' ∙ h.0, omega (arith, h.1, ap (λ (s : Simstat). s.comps) k)),
        ))
