-- ===== src/Sim/PifoNaive/Departure.antt =====
-- A departure from `PIFO_Naive`: the message that it chooses is in `gqueue`, so that the assertion
-- on `gqueue.erase` holds.
use homa_nic.Prelude.{
  ℕ, suc, ◌+◌, ◌≤◌, ◌≡◌, ◌&&◌, ◌∙◌, refl, ap, Bool, false, arith, leb, ◌==◌, if◌then◌else◌, List,
  [], ◌∷◌, length, inl, inr, Bool-cases, ok, Returns, Ends->>=, Ends-map, ◌++◌,
}
use homa_nic.Prelude.Int.{ℤ, pos, ◌-ℤ◌, -ℤ_parts, eq_ℤ}
use homa_nic.Sim.Entry.{Entry, null_entry}
use homa_nic.Sim.Multiset.{
  count, SameEntries, erase, erase_count, count-insert, length-insert, first,
}
use homa_nic.Sim.Base.{
  Base, add64, sent, is_last, account, settle, remove_entry, put_back, note_packet, note_inaccuracy,
  note_completion, note_underflow,
}
use homa_nic.Sim.Ideal.Invariant.{rest, busy, more_to_send}
use homa_nic.Sim.PifoNaive.{Own, dequeue}
use homa_nic.Sim.PifoNaive.Contents.{contents, count-contents, held_part}
use homa_nic.Sim.PifoNaive.Places.{bit, entries}
use homa_nic.Sim.PifoNaive.System.{
  InSystem, overdue, count-erase_found, length-erase_found, erase_count_once, count-first,
}

-- The queue after it has chosen `e`.
abbrev pub chosen : Own → Entry → List Entry → Own
chosen o e hw = record o {
  hwqueue = rest e hw;
  active = if is_last e then o.active -ℤ pos 1 else o.active;
}

pub dequeue_front :
    (e : Entry) (hw : List Entry) (b : Base) (o : Own)
    → o.hwqueue ≡ e ∷ hw
    → dequeue (record { base = b; own = o })
      ≡ (e, record { base = record b { buff = busy e }; own = chosen o e hw })
unfolding dequeue
dequeue_front e hw b o h = rw h (ground (arith, more_to_send e))

pub dequeue_none :
    (b : Base) (o : Own)
    → o.hwqueue ≡ []
    → dequeue (record { base = b; own = o })
      ≡ (null_entry, record { base = b; own = record o { hwqueue = [] } })
unfolding dequeue
dequeue_none b o h = rw h refl

remove_found :
    (e : Entry) (b : Base) (g : List Entry)
    → b.gqueue ≡ g
    → erase_count e g ≡ 1
    → remove_entry e b ≡ ok (record b { gqueue = erase e g })
unfolding remove_entry
remove_found e b g h k = rw (h, k) refl

-- The members that the counters of a packet leave as they are, and the number of messages that
-- are complete.
abbrev pub Noted : ℕ → Base → Base → Type 0
Noted n b c = (c.gqueue ≡ b.gqueue) × (c.id ≡ b.id) × (c.gstats ≡ b.gstats) × (c.simstats.comps ≡ n)

note_packet-Noted : (b : Base) → Noted b.simstats.comps b (note_packet b)
unfolding note_packet
note_packet-Noted b = ground arith

pub note_underflow-Noted : (b : Base) → Noted b.simstats.comps b (note_underflow b)
unfolding note_underflow
note_underflow-Noted b = ground arith

note_inaccuracy-Noted :
    (e best : Entry) (b : Base) → Noted b.simstats.comps b (note_inaccuracy e best b)
unfolding note_inaccuracy
note_inaccuracy-Noted e best b = ground arith

note_completion-Noted :
    (ts : ℕ) (e : Entry) (b : Base)
    → Noted
        (if b.gstats then add64 b.simstats.comps 1 else b.simstats.comps)
        b
        (note_completion ts e b)
unfolding note_completion
note_completion-Noted ts e b = ground arith

-- What is left when the message `e` has sent a packet.
abbrev pub Settled : Entry → Base → Base → Type 0
Settled e b c =
    (c.gqueue ≡ rest e (erase e b.gqueue))
    × (c.id ≡ b.id)
    × (c.gstats ≡ b.gstats)
    × (c.simstats.comps
        ≡ (if is_last e && b.gstats then add64 b.simstats.comps 1 else b.simstats.comps))

settle-Settled :
    (ts : ℕ) (e : Entry) (b : Base)
    → erase_count e b.gqueue ≡ 1
    → Returns (Settled e b) (settle ts e b)
unfolding settle put_back
settle-Settled ts e b h = elim (Bool-cases (is_last e)) [
  | inl p ↦
      let n = note_completion-Noted ts e b in
      rw (p, remove_found e (note_completion ts e b) b.gqueue n.0 h) (rw p refl, n.1, n.2, rw p n.3)
  | inr p ↦ rw (p, remove_found e b b.gqueue refl h) (rw p refl, refl, refl, rw p refl)
]

first-Returns : (g : List Entry) → 1 ≤ length g → Returns (λ _. Unit {0}) (first g)
unfolding first
first-Returns [] h = absurd (omega arith)
first-Returns (x ∷ xs) h = tt

pub account-Settled :
    (ts : ℕ) (e : Entry) (b : Base)
    → overdue e ≡ false
    → 1 ≤ length b.gqueue
    → erase_count e b.gqueue ≡ 1
    → Returns (Settled e b) (account ts e b)
unfolding account overdue
account-Settled ts e b u n h =
    let z : eq_ℤ e.length (pos 0) ≡ false = ground arith in
    rw z (
      Ends->>= (λ _. ⊥) (λ _. Unit {0}) (Settled e b) (first b.gqueue) _ (first-Returns b.gqueue n)
        (λ best _.
          let c : Base = note_inaccuracy e best (note_packet b) in
          let i = note_inaccuracy-Noted e best (note_packet b) in
          let j = note_packet-Noted b in
          Ends-map (λ _. ⊥) (Settled e c) (Settled e b) (settle ts e c)
            (λ t s. (
              s.0 ∙ ap (λ g. rest e (erase e g)) (i.0 ∙ j.0),
              s.1 ∙ i.1 ∙ j.1,
              s.2 ∙ i.2 ∙ j.2,
              s.3
                  ∙ ap (λ k. if is_last e && c.gstats then add64 k 1 else k) (i.3 ∙ j.3)
                  ∙ ap (λ g. if is_last e && g then add64 b.simstats.comps 1 else b.simstats.comps)
                      (i.2 ∙ j.2),
            ))
            (settle-Settled ts e c (rw (i.0 ∙ j.0) h))))

count-rest :
    (p : Entry → Bool) (e : Entry) (l : List Entry)
    → count p (rest e l) ≡ (if is_last e then 0 else bit p (sent e)) + count p l
count-rest p e l = ground (arith, count-insert p (sent e) l)

length-rest :
    (e : Entry) (l : List Entry)
    → length (rest e l) ≡ (if is_last e then length l else suc (length l))
length-rest e l = ground (arith, length-insert (sent e) l)

overdue-sent : (e : Entry) → overdue e ≡ false → is_last e ≡ false → overdue (sent e) ≡ false
unfolding overdue
overdue-sent e u p = ground (arith, -ℤ_parts e.remaining (pos 24))

one_less : (z : ℤ) (n : ℕ) → z ≡ pos (suc n) → z -ℤ pos 1 ≡ pos n
unfolding ◌-ℤ◌
one_less z n h = rw h (ground arith)

module _ {all : Bool} (b c : Base) (o : Own) (e : Entry) (hw : List Entry) (v : InSystem all b o)
    (h : o.hwqueue ≡ e ∷ hw) where
  front : SameEntries b.gqueue (e ∷ (hw ++ (entries o.backing ++ held_part o.scan o.held)))
  front p = v.same p ∙ ap (λ l. count p (l ++ (entries o.backing ++ held_part o.scan o.held))) h

  pub front_erased : (p : Entry → Bool) → bit p e + count p (erase e b.gqueue) ≡ count p b.gqueue
  front_erased = count-erase_found e _ b.gqueue front v.distinct

  pub front_length : suc (length (erase e b.gqueue)) ≡ length b.gqueue
  front_length = length-erase_found e _ b.gqueue front v.distinct

  pub front_once : erase_count e b.gqueue ≡ 1
  front_once = erase_count_once e _ b.gqueue front v.distinct

  pub front_unsent : overdue e ≡ false
  front_unsent = ground (arith, front_erased overdue, v.unsent)

  module _ (s : Settled e b c) where
    pub count-settled :
        (p : Entry → Bool)
        → count p c.gqueue ≡ (if is_last e then 0 else bit p (sent e)) + count p (erase e b.gqueue)
    count-settled p = ap (count p) s.0 ∙ count-rest p e (erase e b.gqueue)

    count-settled-le :
        (p : Entry → Bool) → bit p (sent e) ≡ bit p e → count p c.gqueue ≤ count p b.gqueue
    count-settled-le p q = ground (arith, count-settled p, front_erased p)

    length-settled :
        length c.gqueue
        ≡ (if is_last e then length (erase e b.gqueue) else suc (length (erase e b.gqueue)))
    length-settled = ap length s.0 ∙ length-rest e (erase e b.gqueue)

    settled-same : SameEntries c.gqueue (contents (chosen o e hw))
    settled-same p = omega (
      arith,
      count-settled p,
      count-contents p (chosen o e hw),
      count-rest p e hw,
      v.same p,
      count-contents p o,
      ap (count p) h,
      count-first p e hw,
      front_erased p,
    )

    pub settled-InSystem : InSystem all c (chosen o e hw)
    settled-InSystem = record {
      places = record { scan_in = v.places.scan_in; unsorted = v.places.unsorted };
      same = settled-same;
      distinct = λ n. omega (arith, v.distinct n, count-settled-le (λ x. x.id == n) refl);
      below = rw s.1 (omega (arith, v.below, count-settled-le (λ x. leb b.id x.id) refl));
      unsent = ground (
        arith,
        count-settled overdue,
        v.unsent,
        front_erased overdue,
        overdue-sent e front_unsent,
      );
      active = ground (
        arith,
        length-settled,
        v.active,
        front_length,
        one_less o.active (length (erase e b.gqueue)),
      );
      counted = λ a. s.2 ∙ v.counted a;
      books = λ a.
          ground (arith, length-settled, s.1, s.3, v.books a, v.counted a, v.word, front_length);
      at_most = ground (arith, length-settled, s.1, s.3, v.at_most, v.word, front_length);
      word = rw s.1 v.word;
    }
