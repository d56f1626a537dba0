-- ===== src/Trace/Print/Scan.antt =====
-- The search for the buffer with the earliest event.
use homa_nic.Prelude.{
  ℕ, suc, ◌+◌, ◌≤◌, ◌<◌, ◌≡◌, ◌⊎◌, inl, inr, refl, ap, true, Option, some, List, [], ◌∷◌,
}
use homa_nic.Prelude.{arith, get_elem?, All, ltb, Bool-cases}
use Prim.Native.String.{String}
use homa_nic.Trace.Buffer.{Event}
use homa_nic.Trace.Buffer.Log.{Holds}
use homa_nic.Trace.Print.{Cursor, event_at, is_earlier, scan, latest}

-- What is left of a buffer to print.
pub record Track : Type 0 where
  pub core : String
  pub events : List Event

-- The cursor is at the first of the events of the track.
abbrev pub Follows : Cursor → Track → Type 0
Follows c t = (c.buffer.name ≡ t.core) × Holds c.buffer c.current t.events

abbrev pub FollowAll : List Cursor → List Track → Type 0
FollowAll [] [] = Unit {0}
FollowAll [] (t ∷ ts) = ⊥
FollowAll (c ∷ cs) [] = ⊥
FollowAll (c ∷ cs) (t ∷ ts) = Follows c t × FollowAll cs ts

-- The time of the first event, and the greatest of all times when there is none.
abbrev pub head_time : Track → ℕ
head_time t = elim t.events [ [] ↦ latest | e ∷ es ↦ e.timestamp ]

-- Each event has a time that the search can find.
abbrev pub Timed : List Event → Type 0
Timed = All (λ e. e.timestamp < latest)

is_earlier_lem :
    (m : ℕ) (c : Cursor) (core : String) (es : List Event)
    → Follows c (record { core = core; events = es })
    → m ≤ latest
    → (is_earlier m c ≡ ltb (head_time (record { core = core; events = es })) m)
is_earlier_lem m c core [] f h = ground (arith, f.1)
is_earlier_lem m c core (e ∷ es) f h = rw f.1.0 (ground (arith, f.1.1, f.1.2))

-- The track found is one whose first event is before `m`, and none has an earlier one.
abbrev pub Found : ℕ → Option ℕ → ℕ → List Track → Option ℕ → Type 0
Found i found m ts r =
    ((r ≡ found) × All (λ t. m ≤ head_time t) ts)
    ⊎ ((j : ℕ) × (t : Track) × (r ≡ some (i + j))
        × (get_elem? ts j ≡ some t)
        × (head_time t < m)
        × All (λ s. head_time t ≤ head_time s) ts)

event_time :
    (m : ℕ) (c : Cursor) (core : String) (es : List Event)
    → Follows c (record { core = core; events = es })
    → m ≤ latest
    → ltb (head_time (record { core = core; events = es })) m ≡ true
    → (event_at c).timestamp ≡ head_time (record { core = core; events = es })
event_time m c core [] f h p = absurd (ground arith)
event_time m c core (e ∷ es) f h p = ap (λ (x : Event). x.timestamp) f.1.0

-- A track that comes first is found, unless a later one has an earlier event.
Found-here :
    (i m : ℕ) (found : Option ℕ) (t : Track) (ts : List Track) (r : Option ℕ)
    → head_time t < m
    → Found (suc i) (some i) (head_time t) ts r
    → Found i found m (t ∷ ts) r
Found-here i m found t ts r h (inl (e, b)) =
    inr (0, t, rw e (ap some (omega arith)), refl, h, (omega arith, b))
Found-here i m found t ts r h (inr (j, s, e, g, l, b)) =
    inr (suc j, s, rw e (ap some (omega arith)), g, omega arith, (omega arith, b))

Found-later :
    (i m : ℕ) (found : Option ℕ) (t : Track) (ts : List Track) (r : Option ℕ)
    → m ≤ head_time t
    → Found (suc i) found m ts r
    → Found i found m (t ∷ ts) r
Found-later i m found t ts r h (inl (e, b)) = inl (e, (h, b))
Found-later i m found t ts r h (inr (j, s, e, g, l, b)) =
    inr (suc j, s, rw e (ap some (omega arith)), g, l, (omega arith, b))

pub scan-Found :
    (cs : List Cursor) (ts : List Track) (i m : ℕ) (found : Option ℕ)
    → FollowAll cs ts
    → m ≤ latest
    → Found i found m ts (scan i found m cs)
unfolding scan
scan-Found [] [] i m found f h = inl (refl, tt)
scan-Found [] (t ∷ ts) i m found f h = absurd f
scan-Found (c ∷ cs) [] i m found f h = absurd f
scan-Found (c ∷ cs) (t ∷ ts) i m found f h =
    let w = is_earlier_lem m c t.core t.events f.0 h in
    elim (Bool-cases (ltb (head_time t) m)) [
      | inl p ↦
          let time = event_time m c t.core t.events f.0 h p in
          rw (w, p, time)
            (Found-here i m found t ts _ (ground arith)
              (scan-Found cs ts (suc i) (head_time t) (some i) f.1 (ground arith)))
      | inr p ↦
          rw (w, p)
            (Found-later i m found t ts _ (ground arith) (scan-Found cs ts (suc i) m found f.1 h))
    ]
