-- ===== src/Trace/Print/Merge.antt =====
-- The loop that prints the earliest event of all buffers in each round.
use homa_nic.Prelude.{
  ℕ, zero, suc, ◌+◌, ◌≤◌, ◌<◌, ◌≡◌, ◌∙◌, inl, inr, refl, sym, ap, subst, Bool, true, Option, none,
  some, List, [], ◌∷◌,
}
use homa_nic.Prelude.{arith, get_elem?, set, All, if◌then◌else◌}
use Prim.Native.String.{String}
use homa_nic.Trace.Buffer.{Event}
use homa_nic.Trace.Print.{Cursor, Line, advance, scan, latest, print_loop}
use homa_nic.Trace.Print.Scan.{Track, Follows, FollowAll, head_time, Timed, scan-Found}

-- The events come in the order of their times, the first at `m` or later.
abbrev pub InOrder : ℕ → List Event → Type 0
InOrder m [] = Unit {0}
InOrder m (e ∷ es) = (m ≤ e.timestamp) × InOrder e.timestamp es

abbrev pub LinesInOrder : ℕ → List Line → Type 0
LinesInOrder m [] = Unit {0}
LinesInOrder m (l ∷ ls) = (m ≤ l.event.timestamp) × LinesInOrder l.event.timestamp ls

-- How many lines, or events of a track that make lines, satisfy a test.
abbrev pub bit : Bool → ℕ
bit b = if b then 1 else 0

abbrev pub count_lines : (Line → Bool) → List Line → ℕ
count_lines p [] = 0
count_lines p (l ∷ ls) = bit (p l) + count_lines p ls

abbrev pub line : Track → Event → Line
line t e = record { core = t.core; event = e }

abbrev pub count_from : (Event → Bool) → List Event → ℕ
count_from p [] = 0
count_from p (e ∷ es) = bit (p e) + count_from p es

abbrev pub count_track : (Line → Bool) → Track → ℕ
count_track p t = count_from (λ e. p (line t e)) t.events

abbrev pub total : (Line → Bool) → List Track → ℕ
total p [] = 0
total p (t ∷ ts) = count_track p t + total p ts

set-All :
    (P : Track → Type 0) (ts : List Track) (j : ℕ) (t : Track) → All P ts → P t → All P (set ts j t)
set-All P [] j t h k = tt
set-All P (s ∷ ts) zero t h k = (k, h.1)
set-All P (s ∷ ts) (suc j) t h k = (h.0, set-All P ts j t h.1 k)

get-All :
    (P : Track → Type 0) (ts : List Track) (j : ℕ) {t : Track}
    → All P ts
    → get_elem? ts j ≡ some t
    → P t
get-All P [] j h e = absurd (cc)
get-All P (s ∷ ts) zero {t = t} h e = let same : s ≡ t = cc in subst P same h.0
get-All P (s ∷ ts) (suc j) h e = get-All P ts j h.1 e

-- The cursor that a found track belongs to.
get-Follows :
    (cs : List Cursor) (ts : List Track) (j : ℕ) {t : Track}
    → FollowAll cs ts
    → get_elem? ts j ≡ some t
    → (c : Cursor) × (get_elem? cs j ≡ some c) × Follows c t
get-Follows [] [] j f e = absurd (cc)
get-Follows [] (s ∷ ts) j f e = absurd f
get-Follows (c ∷ cs) [] j f e = absurd f
get-Follows (c ∷ cs) (s ∷ ts) zero {t = t} f e =
    let same : s ≡ t = cc in (c, refl, subst (λ u. Follows c u) same f.0)
get-Follows (c ∷ cs) (s ∷ ts) (suc j) f e = get-Follows cs ts j f.1 e

set-FollowAll :
    (cs : List Cursor) (ts : List Track) (j : ℕ) (c : Cursor) (t : Track)
    → FollowAll cs ts
    → Follows c t
    → FollowAll (set cs j c) (set ts j t)
set-FollowAll [] [] j c t f k = tt
set-FollowAll [] (s ∷ ts) j c t f k = absurd f
set-FollowAll (b ∷ cs) [] j c t f k = absurd f
set-FollowAll (b ∷ cs) (s ∷ ts) zero c t f k = (k, f.1)
set-FollowAll (b ∷ cs) (s ∷ ts) (suc j) c t f k = (f.0, set-FollowAll cs ts j c t f.1 k)

-- Taking the first event of one track takes one line from the whole.
total-set :
    (p : Line → Bool) (ts : List Track) (j : ℕ) (core : String) (e : Event) (es : List Event)
    → get_elem? ts j ≡ some (record { core = core; events = e ∷ es })
    → bit (p (record { core = core; event = e }))
        + total p (set ts j (record { core = core; events = es }))
      ≡ total p ts
total-set p [] j core e es h = absurd (cc)
total-set p (s ∷ ts) zero core e es h =
    let same : s ≡ record { core = core; events = e ∷ es } = cc in
    omega (arith, ap (count_track p) same)
total-set p (s ∷ ts) (suc j) core e es h = omega (arith, total-set p ts j core e es h)

-- Nothing is left when no search finds an event.
none_left :
    (p : Line → Bool) (ts : List Track)
    → All (λ t. latest ≤ head_time t) ts
    → All (λ t. Timed t.events) ts
    → total p ts ≡ 0
none_left p [] h k = refl
none_left p (t ∷ ts) h k =
    let none : count_track p t ≡ 0 = none_here t.core t.events h.0 k.0 in
    omega (arith, none, none_left p ts h.1 k.1)
  where
    none_here :
        (core : String) (es : List Event)
        → latest ≤ head_time (record { core = core; events = es })
        → Timed es
        → count_from (λ e. p (record { core = core; event = e })) es ≡ 0
    none_here core [] a b = refl
    none_here core (e ∷ es) a b = absurd (omega (arith, a, b.0))

InOrder-from :
    (m n : ℕ) (core : String) (es : List Event)
    → InOrder m es
    → n ≤ head_time (record { core = core; events = es })
    → InOrder n es
InOrder-from m n core [] o h = tt
InOrder-from m n core (e ∷ es) o h = (h, o.1)

raise :
    (m n : ℕ) (ts : List Track)
    → All (λ t. InOrder m t.events) ts
    → All (λ t. n ≤ head_time t) ts
    → All (λ t. InOrder n t.events) ts
raise m n [] o h = tt
raise m n (t ∷ ts) o h = (InOrder-from m n t.core t.events o.0 h.0, raise m n ts o.1 h.1)

-- The lines of the tracks, all of them, in the order of their times.
abbrev pub Merged : ℕ → List Track → Option (List Line) → Type 0
Merged m ts r =
    (out : List Line) × (r ≡ some out)
    × LinesInOrder m out
    × ((p : Line → Bool) → count_lines p out ≡ total p ts)

abbrev pub Ready : ℕ → List Track → Type 0
Ready m ts = All (λ t. InOrder m t.events) ts × All (λ t. Timed t.events) ts

-- One round of the loop, before the rounds that follow it.
print_round :
    (fuel : ℕ) (cs : List Cursor) (ts : List Track) (m j : ℕ) (c : Cursor) (core : String)
    (events : List Event)
    → scan 0 none latest cs ≡ some j
    → get_elem? cs j ≡ some c
    → Follows c (record { core = core; events = events })
    → get_elem? ts j ≡ some (record { core = core; events = events })
    → head_time (record { core = core; events = events }) < latest
    → All (λ s. head_time (record { core = core; events = events }) ≤ head_time s) ts
    → FollowAll cs ts
    → Ready m ts
    → ((ts' : List Track) (n : ℕ)
        → total (λ _. true) ts ≡ suc (total (λ _. true) ts')
        → FollowAll (set cs j (advance c)) ts'
        → Ready n ts'
        → Merged n ts' (print_loop fuel (set cs j (advance c))))
    → Merged m ts (print_loop (suc fuel) cs)
unfolding print_loop
print_round fuel cs ts m j c core [] s gc fc g l b f r next = absurd (omega arith)
print_round fuel cs ts m j c core (e ∷ es) s gc fc g l b f r next =
    let t : Track = record { core = core; events = e ∷ es } in
    let t' : Track = record { core = core; events = es } in
    let o = get-All (λ u. InOrder m u.events) ts j r.0 g in
    let k = get-All (λ u. Timed u.events) ts j r.1 g in
    let order =
      set-All (λ u. InOrder e.timestamp u.events) ts j t' (raise m e.timestamp ts r.0 b) o.1 in
    let timed = set-All (λ u. Timed u.events) ts j t' r.1 k.1 in
    let (out, eq, ord, counts) =
      next (set ts j t') e.timestamp (omega (arith, total-set (λ _. true) ts j core e es g))
        (set-FollowAll cs ts j (advance c) t' f (fc.0, fc.1.3)) (order, timed) in
    (
      record { core = core; event = e } ∷ out,
      rw (s, gc, eq, fc.0, fc.1.0, print_loop) refl,
      (o.0, ord),
      λ p. omega (arith, counts p, total-set p ts j core e es g),
    )

pub print_loop-Merged :
    (fuel : ℕ) (cs : List Cursor) (ts : List Track) (m : ℕ)
    → FollowAll cs ts
    → Ready m ts
    → total (λ _. true) ts < fuel
    → Merged m ts (print_loop fuel cs)
unfolding print_loop
print_loop-Merged zero cs ts m f r h = absurd (omega arith)
print_loop-Merged (suc fuel) cs ts m f r h = elim (scan-Found cs ts 0 latest none f (omega arith)) [
  | inl (e, b) ↦ ([], rw (e, print_loop) refl, tt, λ p. sym (none_left p ts b r.1))
  | inr (j, t, e, g, l, b) ↦
      let (c, gc, fc) = get-Follows cs ts j f g in
      print_round fuel cs ts m j c t.core t.events (e ∙ ap some (omega arith)) gc fc g l b f r
        (λ ts' n k f' r'.
          print_loop-Merged fuel (set cs j (advance c)) ts' n f' r' (omega (arith, h, k)))
]
