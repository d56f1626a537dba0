-- ===== src/Sim/PifoNaive/Events.antt =====
-- Departures from a `PIFO_Naive` queue and arrivals keep it in the system.
use homa_nic.Prelude.{
  Bool, ℕ, suc, ◌≤◌, ◌<◌, ◌^◌, ◌≡◌, ◌∙◌, refl, sym, ap, false, arith, leb, ◌==◌, List, [], ◌∷◌,
  length, inl, inr, Bool-cases, ok, Returns, Ends->>=, ◌++◌,
}
use homa_nic.Prelude.Int.{ℤ, pos, ◌<ℤ◌, ◌+ℤ◌}
use homa_nic.Sim.Entry.{Entry, null_entry}
use homa_nic.Sim.Multiset.{count, SameEntries, count_mono, insert, count-insert, length-insert}
use homa_nic.Sim.Base.{
  Base, Object, add64, account, note_underflow, serve, send, departure, arrival, new_entry,
}
use homa_nic.Sim.Ideal.Invariant.{busy}
use homa_nic.Sim.Ideal.Arrivals.{nonzero}
use homa_nic.Sim.PifoNaive.{Own, empty, pifo_naive, enqueue}
use homa_nic.Sim.PifoNaive.Contents
use homa_nic.Sim.PifoNaive.Contents.{contents, tally, count-contents, held_part}
use homa_nic.Sim.PifoNaive.Places.{entries}
use homa_nic.Sim.PifoNaive.System.{InSystem, overdue}
use homa_nic.Sim.PifoNaive.Departure.{
  Noted, note_underflow-Noted, Settled, account-Settled, dequeue_front, dequeue_none, front_length,
  front_once, front_unsent, settled-InSystem,
}

-- An operation that rearranges the messages keeps the queue in the system.
pub moved-InSystem :
    {all : Bool} (b c : Base) (o o' : Own)
    → InSystem all b o
    → Noted b.simstats.comps b c
    → Contents.IsValid o'
    → SameEntries (contents o') (contents o)
    → o'.active ≡ o.active
    → InSystem all c o'
moved-InSystem b c o o' v n w s a = record {
  places = w;
  same = λ p. ap (count p) n.0 ∙ v.same p ∙ sym (s p);
  distinct = rw n.0 v.distinct;
  below = rw (n.0, n.1) v.below;
  unsent = rw n.0 v.unsent;
  active = rw n.0 (a ∙ v.active);
  counted = λ a. n.2 ∙ v.counted a;
  books = λ a. rw (n.0, n.1, n.3) (v.books a);
  at_most = rw (n.0, n.1, n.3) v.at_most;
  word = rw n.1 v.word;
}

-- What an operation other than `arrival` keeps.
abbrev pub Kept : Bool → Base → Object Own → Type 0
Kept all b t = InSystem all t.base t.own × (t.base.id ≡ b.id)

pub serve-InSystem :
    {all : Bool} (ts : ℕ) (b : Base) (o : Own) → InSystem all b o → InSystem all (serve ts b) o
unfolding serve
serve-InSystem ts b o v =
    moved-InSystem b (serve ts b) o o v (refl, refl, refl, refl) v.places (λ p. refl) refl

pub buff-InSystem :
    {all : Bool} (n : ℕ) (b : Base) (o : Own)
    → InSystem all b o
    → InSystem all (record b { buff = n }) o
buff-InSystem n b o v =
    moved-InSystem b (record b { buff = n }) o o v (refl, refl, refl, refl) v.places (λ p. refl)
      refl

pub account_null : (ts : ℕ) (b : Base) → account ts null_entry b ≡ ok (note_underflow b)
unfolding account
account_null ts b = refl

-- The queue with a new message.
abbrev joined : Entry → Base → Base
joined e b = record b { id = add64 b.id 1; gqueue = insert e b.gqueue }

abbrev queued : Entry → Own → Own
queued e o = record o { hwqueue = insert e o.hwqueue; active = o.active +ℤ pos 1 }

one_more : (z : ℤ) (n : ℕ) → z ≡ pos n → z +ℤ pos 1 ≡ pos (suc n)
unfolding ◌+ℤ◌
one_more z n h = rw h (ground arith)

joined-distinct :
    {all : Bool} (e : Entry) (b : Base) (o : Own)
    → InSystem all b o
    → e.id ≡ b.id
    → (n : ℕ) → count (λ x. x.id == n) (insert e b.gqueue) ≤ 1
joined-distinct e b o v i n = elim (Bool-cases (e.id == n)) [
  | inl p ↦
      let le =
        count_mono (λ x. x.id == n) (λ x. leb b.id x.id) b.gqueue (λ x h. ground (arith, p, i)) in
      ground (arith, count-insert (λ x. x.id == n) e b.gqueue, le, v.below)
  | inr p ↦ ground (arith, count-insert (λ x. x.id == n) e b.gqueue, p, v.distinct n)
]

joined-InSystem :
    {all : Bool} (e : Entry) (b : Base) (o : Own)
    → InSystem all b o
    → e.id ≡ b.id
    → overdue e ≡ false
    → suc b.id < 2 ^ 64
    → InSystem all (joined e b) (queued e o)
joined-InSystem e b o v i u small =
    let le =
      count_mono (λ x. leb (suc b.id) x.id) (λ x. leb b.id x.id) b.gqueue (λ x h. ground arith) in
    let next : add64 b.id 1 ≡ suc b.id = omega arith in
    record {
      places = record { scan_in = v.places.scan_in; unsorted = v.places.unsorted };
      same = λ p. omega (
        arith,
        count-insert p e b.gqueue,
        v.same p,
        count-contents p o,
        count-contents p (queued e o),
        count-insert p e o.hwqueue,
      );
      distinct = joined-distinct e b o v i;
      below =
          rw next
            (ground (arith, count-insert (λ x. leb (suc b.id) x.id) e b.gqueue, v.below, le, i));
      unsent = ground (arith, count-insert overdue e b.gqueue, v.unsent, u);
      active = rw (length-insert e b.gqueue) (one_more o.active (length b.gqueue) v.active);
      counted = v.counted;
      books = λ a. omega (arith, v.books a, length-insert e b.gqueue, next);
      at_most = omega (arith, v.at_most, length-insert e b.gqueue, next);
      word = omega arith;
    }

module _ (priorities : ℤ) where
  send-Kept :
      {all : Bool} (ts : ℕ) (b : Base) (o : Own) (l : List Entry)
      → o.hwqueue ≡ l
      → InSystem all b o
      → Returns (Kept all b) (send (pifo_naive priorities) ts (record { base = b; own = o }))
  unfolding send
  send-Kept {all = all} ts b o [] h v = elim (Bool-cases (empty o)) [
    | inl p ↦ rw p (v, refl)
    | inr p ↦
        rw (p, dequeue_none b o h, account_null ts b)
          (
            moved-InSystem b (note_underflow b) o (record o { hwqueue = [] }) v
                (note_underflow-Noted b)
                (record { scan_in = v.places.scan_in; unsorted = v.places.unsorted })
                (λ q.
                  ap (λ l. count q (l ++ (entries o.backing ++ held_part o.scan o.held))) (sym h))
                refl,
            (note_underflow-Noted b).1,
          )
  ]
  send-Kept {all = all} ts b o (e ∷ hw) h v = elim (Bool-cases (empty o)) [
    | inl p ↦ rw p (v, refl)
    | inr p ↦
        let c : Base = record b { buff = busy e } in
        let w : InSystem all c o = buff-InSystem (busy e) b o v in
        rw (p, dequeue_front e hw b o h)
          (Ends->>= (λ _. ⊥) (Settled e c) (Kept all b) (account ts e c) _
            (account-Settled ts e c (front_unsent c c o e hw w h)
              (omega (arith, front_length c c o e hw w h)) (front_once c c o e hw w h))
            (λ t s. (settled-InSystem c t o e hw w h s, s.1)))
  ]

  pub departure-Kept :
      {all : Bool} (ts : ℕ) (b : Base) (o : Own)
      → InSystem all b o
      → Returns (Kept all b) (departure (pifo_naive priorities) ts (record { base = b; own = o }))
  unfolding departure
  departure-Kept ts b o v = elim (Bool-cases ((serve ts b).buff == 0)) [
    | inl p ↦ rw p (send-Kept ts (serve ts b) o o.hwqueue refl (serve-InSystem ts b o v))
    | inr p ↦ rw p (serve-InSystem ts b o v, refl)
  ]

  pub arrival-InSystem :
      {all : Bool} (ts : ℕ) (len : ℤ) (b : Base) (o : Own)
      → InSystem all b o
      → pos 0 <ℤ len
      → suc b.id < 2 ^ 64
      → Returns
          (λ t. InSystem all t.base t.own × (t.base.id ≡ suc b.id))
          (arrival (pifo_naive priorities) ts len (record { base = b; own = o }))
  unfolding arrival enqueue overdue
  arrival-InSystem ts len b o v l small =
      rw (nonzero len l)
        (joined-InSystem (new_entry ts len b) b o v refl (ground arith) small, omega arith)
