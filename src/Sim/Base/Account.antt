-- ===== src/Sim/Base/Account.antt =====
-- What `departure` does to the shared members once a queue has chosen a message.
use homa_nic.Prelude.{ℕ, ◌≡◌, true, false, List, ◌∷◌, arith, if◌then◌else◌}
use homa_nic.Prelude.{ok, ◌∙◌, Bool-cases, inl, inr}
use homa_nic.Prelude.Int.{pos, eq_ℤ, ◌<ℤ◌}
use homa_nic.Sim.Entry.{Entry}
use homa_nic.Sim.Multiset.{Sorted, insert, first, erase_first}
use homa_nic.Sim.Base.{
  Base, account, settle, is_last, note_packet, note_inaccuracy, note_completion, remove_entry,
  put_back, sent, add64,
}

gqueue-note_packet : (b : Base) → (note_packet b).gqueue ≡ b.gqueue
unfolding note_packet
gqueue-note_packet b = ground arith

gqueue-note_completion :
    (ts : ℕ) (e : Entry) (b : Base) → (note_completion ts e b).gqueue ≡ b.gqueue
unfolding note_completion
gqueue-note_completion ts e b = ground arith

-- The best message is never an inaccuracy.
note_inaccuracy_self : (e : Entry) (b : Base) → note_inaccuracy e e b ≡ b
unfolding note_inaccuracy
note_inaccuracy_self e b = ground arith

remove_entry_first :
    (e : Entry) (es : List Entry) (b : Base)
    → b.gqueue ≡ e ∷ es
    → Sorted (e ∷ es)
    → remove_entry e b ≡ ok (record b { gqueue = es })
unfolding remove_entry
remove_entry_first e es b h s = rw h (ground (arith, erase_first e es s))

settle_first :
    (ts : ℕ) (e : Entry) (es : List Entry) (b : Base)
    → b.gqueue ≡ e ∷ es
    → Sorted (e ∷ es)
    → settle ts e b
      ≡ ok (
          if is_last e
          then record (note_completion ts e b) { gqueue = es }
          else record b { gqueue = insert (sent e) es })
unfolding settle put_back
settle_first ts e es b h s = elim (Bool-cases (is_last e)) [
  | inl p ↦
      rw p (remove_entry_first e es (note_completion ts e b) (gqueue-note_completion ts e b ∙ h) s)
  | inr p ↦ rw (p, remove_entry_first e es b h s)
]

first_eq : (e : Entry) (es : List Entry) (b : Base) → b.gqueue ≡ e ∷ es → first b.gqueue ≡ ok e
unfolding first
first_eq e es b h = rw h

has_length : (e : Entry) → pos 0 <ℤ e.length → eq_ℤ e.length (pos 0) ≡ false
has_length e h = ground arith

-- The state of the shared members when the message in front of `gqueue` is the one chosen.
abbrev pub after_first : ℕ → Entry → List Entry → Base → Base
after_first ts e es b =
    if is_last e
    then record (note_completion ts e (note_packet b)) { gqueue = es }
    else record (note_packet b) { gqueue = insert (sent e) es }

pub account_first :
    (ts : ℕ) (e : Entry) (es : List Entry) (b : Base)
    → b.gqueue ≡ e ∷ es
    → Sorted (e ∷ es)
    → pos 0 <ℤ e.length
    → account ts e b ≡ ok (after_first ts e es b)
unfolding account
account_first ts e es b h s l =
    rw (has_length e l, first_eq e es b h, note_inaccuracy_self e (note_packet b))
      (settle_first ts e es (note_packet b) (gqueue-note_packet b ∙ h) s)

-- What departures of the best message, arrivals and steps leave as it is.
abbrev pub SameQuality : Base → Base → Type 0
SameQuality b c =
    (c.simstats.pktinacc ≡ b.simstats.pktinacc)
    × (c.simstats.underflow ≡ b.simstats.underflow)
    × (c.simstats.violations ≡ b.simstats.violations)
    × (c.violations ≡ b.violations)

-- The members that a departure of the best message leaves as they are.
abbrev pub SameMembers : Base → Base → Type 0
SameMembers b c =
    (c.id ≡ b.id)
    × (c.buff ≡ b.buff)
    × (c.slotstats ≡ b.slotstats)
    × (c.queuestats ≡ b.queuestats)
    × (c.gstats ≡ b.gstats)

note_packet_same : (b : Base) → SameQuality b (note_packet b) × SameMembers b (note_packet b)
unfolding note_packet
note_packet_same b = ground arith

note_completion_same :
    (ts : ℕ) (e : Entry) (b : Base)
    → SameQuality b (note_completion ts e b) × SameMembers b (note_completion ts e b)
unfolding note_completion
note_completion_same ts e b = ground arith

pub after_first_same :
    (ts : ℕ) (e : Entry) (es : List Entry) (b : Base)
    → SameQuality b (after_first ts e es b) × SameMembers b (after_first ts e es b)
after_first_same ts e es b =
    ground (arith, note_packet_same b, note_completion_same ts e (note_packet b))

pub gqueue-after_first :
    (ts : ℕ) (e : Entry) (es : List Entry) (b : Base)
    → (after_first ts e es b).gqueue ≡ (if is_last e then es else insert (sent e) es)
gqueue-after_first ts e es b = ground arith

comps-note_packet : (b : Base) → (note_packet b).simstats.comps ≡ b.simstats.comps
unfolding note_packet
comps-note_packet b = ground arith

comps-note_completion :
    (ts : ℕ) (e : Entry) (b : Base)
    → b.gstats ≡ true
    → (note_completion ts e b).simstats.comps ≡ add64 b.simstats.comps 1
unfolding note_completion
comps-note_completion ts e b h = ground arith

-- A departure completes a message exactly when it sends the last packet.
pub comps-after_first :
    (ts : ℕ) (e : Entry) (es : List Entry) (b : Base)
    → b.gstats ≡ true
    → (after_first ts e es b).simstats.comps
      ≡ (if is_last e then add64 b.simstats.comps 1 else b.simstats.comps)
comps-after_first ts e es b h =
    ground
      (arith, comps-note_packet b, note_packet_same b, comps-note_completion ts e (note_packet b))
