-- ===== src/Sim/PifoNaive/Advance.antt =====
-- A scan of `PIFO_Naive` moves the held entry on and keeps every message.
use homa_nic.Prelude.{ℕ, zero, suc, ◌+◌, ◌<◌, ◌≡◌, refl, subst, ◌∙◌, Bool, true, false}
use homa_nic.Prelude.{lt_of_get_elem?, List, length, arith, if◌then◌else◌}
use homa_nic.Prelude.{Returns, Ends->>=, Bool-cases, inl, inr, leb, ◌==◌, ◌||◌}
use homa_nic.Prelude.Int.{ℤ, pos, negsuc, ◌+ℤ◌, leb_ℤ, ltb_ℤ, eq_ℤ}
use homa_nic.Sim.Entry.{Entry, less}
use homa_nic.Sim.Multiset.{count}
use homa_nic.Sim.PifoNaive.{
  Own, Slot, minus_one, elem_at, insert_at, erase_at, place, exchange, compare_at, advance,
  advance_at,
}
use homa_nic.Sim.PifoNaive.Places.{
  entries, flags, bit, count-insert_at, length-insert_at, length-erase_at, elem_at_lem,
  length-flags, flag-insert_before, flag-insert_behind, flag-insert_self, flag-exchange,
}
use homa_nic.Sim.PifoNaive.Contents.{IsValid, InRange, Unsorted, Conserved}

pos-succ : (j : ℕ) → pos j +ℤ pos 1 ≡ pos (suc j)
unfolding ◌+ℤ◌
pos-succ j = ground arith

Unsorted-place :
    (f : ℤ) (n : ℕ) (e : Entry) (l : List Slot)
    → Unsorted f l
    → Unsorted (if leb_ℤ (pos n) f then f +ℤ pos 1 else f) (insert_at n (e, true) l)
Unsorted-place (pos j) n e l u = elim (Bool-cases (leb_ℤ (pos n) (pos j))) [
  | inl q ↦
      rw (q, pos-succ j)
        (flag-insert_behind n j (e, true) l (ground arith)
            (omega (arith, lt_of_get_elem? (flags l) j u, length-flags l))
          ∙ u)
  | inr q ↦ rw q (
      flag-insert_before n j (e, true) l (ground arith)
        (omega (arith, lt_of_get_elem? (flags l) j u, length-flags l))
      ∙ u)
]
Unsorted-place (negsuc zero) n e l u =
    let q : leb_ℤ (pos n) (negsuc 0) ≡ false = ground arith in rw q tt
Unsorted-place (negsuc (suc k)) n e l u = absurd u

Unsorted-exchange :
    (f : ℤ) (n : ℕ) (e : Entry) (l : List Slot)
    → Unsorted f l
    → n < length l
    → Unsorted
        (if ltb_ℤ (pos n) f || eq_ℤ f minus_one then pos n else f)
        (insert_at n (e, false) (erase_at n l))
Unsorted-exchange f n e l u h = elim (Bool-cases (ltb_ℤ (pos n) f || eq_ℤ f minus_one)) [
  | inl q ↦
      rw q (flag-insert_self n (e, false) (erase_at n l) (omega (arith, length-erase_at n l h)))
  | inr q ↦ rw q (kept f q u)
]
  where
    kept :
        (f : ℤ)
        → (ltb_ℤ (pos n) f || eq_ℤ f minus_one) ≡ false
        → Unsorted f l
        → Unsorted f (insert_at n (e, false) (erase_at n l))
    kept (pos j) q u = elim (Bool-cases (j == n)) [
      | inl same ↦
          let same' : j ≡ n = ground arith in
          rw same'
            (flag-insert_self n (e, false) (erase_at n l) (omega (arith, length-erase_at n l h)))
      | inr other ↦ flag-exchange n j (e, false) l (ground arith) h ∙ u
    ]
    kept (negsuc zero) q u = tt
    kept (negsuc (suc k)) q u = absurd u

in_range : {w z : ℤ} (k : ℕ) → w ≡ z → InRange w k → InRange z k
in_range k e h = subst (λ z. InRange z k) e h

place-Conserved : (n : ℕ) (o : Own) → IsValid o → o.scan ≡ pos n → Conserved o (place n o)
unfolding place
place-Conserved n o v s = (
  record { scan_in = tt; unsorted = Unsorted-place o.firstunsort n o.held o.backing v.unsorted },
  λ p. rw s (omega (arith, count-insert_at p n (o.held, true) o.backing)),
  refl,
)

exchange-Conserved :
    (n : ℕ) (x : Slot) (o : Own)
    → IsValid o
    → o.scan ≡ pos n
    → n < length o.backing
    → ((p : Entry → Bool)
        → bit p x.0 + count p (entries (erase_at n o.backing)) ≡ count p (entries o.backing))
    → Conserved o (exchange n x.0 o)
unfolding exchange
exchange-Conserved n x o v s h c = (
  record {
    scan_in = omega (
      arith,
      length-insert_at n (o.held, false) (erase_at n o.backing),
      length-erase_at n o.backing h,
    );
    unsorted = Unsorted-exchange o.firstunsort n o.held o.backing v.unsorted h;
  },
  λ p. rw s (omega (arith, c p, count-insert_at p n (o.held, false) (erase_at n o.backing))),
  refl,
)

skip-Conserved :
    (n : ℕ) (o : Own)
    → IsValid o
    → o.scan ≡ pos n
    → n < length o.backing
    → Conserved o (record o { scan = pos (suc n) })
skip-Conserved n o v s h = (record { scan_in = h; unsorted = v.unsorted }, λ p. rw s refl, refl)

compare-Conserved :
    (n : ℕ) (x : Slot) (o : Own)
    → IsValid o
    → o.scan ≡ pos n
    → n < length o.backing
    → ((p : Entry → Bool)
        → bit p x.0 + count p (entries (erase_at n o.backing)) ≡ count p (entries o.backing))
    → Conserved o (compare_at n x o)
unfolding compare_at
compare-Conserved n x o v s h c = elim (Bool-cases (less o.held x.0)) [
  | inl q ↦ elim (Bool-cases x.1) [
    | inl sorted ↦ rw (q, sorted) (place-Conserved n o v s)
    | inr unsorted ↦ rw (q, unsorted) (exchange-Conserved n x o v s h c)
  ]
  | inr q ↦ rw q (skip-Conserved n o v s h)
]

append-Conserved :
    (n : ℕ) (o : Own)
    → IsValid o
    → o.scan ≡ pos n
    → n ≡ length o.backing
    → Conserved o (record o { backing = insert_at n (o.held, true) o.backing; scan = minus_one })
append-Conserved n o v s e = (
  record { scan_in = tt; unsorted = unsorted_append o.firstunsort v.unsorted },
  λ p. rw s (omega (arith, count-insert_at p n (o.held, true) o.backing)),
  refl,
)
  where
    unsorted_append :
        (f : ℤ) → Unsorted f o.backing → Unsorted f (insert_at n (o.held, true) o.backing)
    unsorted_append (pos j) u =
        let in_list : j < length o.backing =
          omega (arith, lt_of_get_elem? (flags o.backing) j u, length-flags o.backing) in
        flag-insert_before n j (o.held, true) o.backing (omega arith) in_list ∙ u
    unsorted_append (negsuc zero) u = tt
    unsorted_append (negsuc (suc k)) u = absurd u

advance_at-Conserved :
    (z : ℤ) (o : Own) → IsValid o → o.scan ≡ z → Returns (Conserved o) (advance_at z o)
unfolding advance_at
advance_at-Conserved (pos n) o v s = elim (Bool-cases (leb (length o.backing) n)) [
  | inl q ↦
      let r : InRange (pos n) (length o.backing) = in_range (length o.backing) s v.scan_in in
      let e : n ≡ length o.backing = ground arith in
      let t : (n == length o.backing) ≡ true = ground arith in
      rw (q, t) (append-Conserved n o v s e)
  | inr q ↦ rw q (
      Ends->>= _ _ (Conserved o) (elem_at o.backing n) _ (elem_at_lem n o.backing (ground arith))
        (λ x h. compare-Conserved n x o v s (ground arith) h.1))
]
advance_at-Conserved (negsuc zero) o v s = (v, λ p. refl, refl)
advance_at-Conserved (negsuc (suc n)) o v s = absurd (in_range (length o.backing) s v.scan_in)

-- One position of a scan.
pub advance-Conserved : (o : Own) → IsValid o → Returns (Conserved o) (advance o)
unfolding advance
advance-Conserved o v = advance_at-Conserved o.scan o v refl
