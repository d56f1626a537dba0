-- ===== src/Trace/Print/Skip.antt =====
-- Where a printout starts: the events before the start time are skipped.
use homa_nic.Prelude.{
  ℕ, zero, suc, ◌≤◌, ◌<◌, ◌≡◌, inl, inr, refl, Bool, true, false, ◌&&◌, some, List, [], ◌∷◌, map,
}
use homa_nic.Prelude.{arith, length, All, ltb, leb, if◌then◌else◌, Bool-cases}
use Prim.Native.String.{String}
use homa_nic.Trace.Buffer.{Event}
use homa_nic.Trace.Print.{Cursor, advance, too_old, skip, skip_all}
use homa_nic.Trace.Print.Scan.{Track, Follows, FollowAll, Timed}
use homa_nic.Trace.Print.Merge.{InOrder, count_from}

-- The events from the first one that is not before `start`.
unfoldable pub keep : ℕ → List Event → List Event
keep start [] = []
keep start (e ∷ es) = if ltb e.timestamp start then keep start es else e ∷ es

too_old_lem :
    (start : ℕ) (c : Cursor) (core : String) (e : Event) (es : List Event)
    → Follows c (record { core = core; events = e ∷ es })
    → too_old start c ≡ ltb e.timestamp start
too_old_lem start c core e es f = rw f.1.0 (ground (arith, f.1.1, f.1.2))

too_old_end :
    (start : ℕ) (c : Cursor) (core : String)
    → Follows c (record { core = core; events = [] })
    → too_old start c ≡ false
too_old_end start c core f = ground (arith, f.1)

skip-keep :
    (fuel start : ℕ) (c : Cursor) (core : String) (es : List Event)
    → Follows c (record { core = core; events = es })
    → length es < fuel
    → (d : Cursor) × (skip fuel start c ≡ some d)
      × Follows d (record { core = core; events = keep start es })
unfolding skip keep
skip-keep zero start c core es f h = absurd (omega arith)
skip-keep (suc fuel) start c core [] f h = (c, rw (too_old_end start c core f, skip) refl, f)
skip-keep (suc fuel) start c core (e ∷ es) f h =
    let t = too_old_lem start c core e es f in
    elim (Bool-cases (ltb e.timestamp start)) [
      | inl p ↦
          let (d, q, g) = skip-keep fuel start (advance c) core es (f.0, f.1.3) (omega arith) in
          (d, rw (t, p, skip) q, rw p g)
      | inr p ↦ (c, rw (t, p, skip) refl, rw p f)
    ]

-- What `skip_all` leaves of each track.
abbrev pub kept : ℕ → Track → Track
kept start t = record t { events = keep start t.events }

pub skip_all-FollowAll :
    (fuel start : ℕ) (cs : List Cursor) (ts : List Track)
    → FollowAll cs ts
    → All (λ t. length t.events < fuel) ts
    → (ds : List Cursor) × (skip_all fuel start cs ≡ some ds) × FollowAll ds (map (kept start) ts)
unfolding skip_all
skip_all-FollowAll fuel start [] [] f h = ([], refl, tt)
skip_all-FollowAll fuel start [] (t ∷ ts) f h = absurd f
skip_all-FollowAll fuel start (c ∷ cs) [] f h = absurd f
skip_all-FollowAll fuel start (c ∷ cs) (t ∷ ts) f h =
    let (d, q, g) = skip-keep fuel start c t.core t.events f.0 h.0 in
    let (ds, qs, gs) = skip_all-FollowAll fuel start cs ts f.1 h.1 in
    (d ∷ ds, rw (q, qs, skip_all) refl, (g, gs))

pub InOrder-keep : (start m : ℕ) (es : List Event) → InOrder m es → InOrder start (keep start es)
unfolding keep
InOrder-keep start m [] o = tt
InOrder-keep start m (e ∷ es) o = elim (Bool-cases (ltb e.timestamp start)) [
  | inl p ↦ rw p (InOrder-keep start e.timestamp es o.1)
  | inr p ↦ rw p (ground arith, o.1)
]

pub Timed-keep : (start : ℕ) (es : List Event) → Timed es → Timed (keep start es)
unfolding keep
Timed-keep start [] t = tt
Timed-keep start (e ∷ es) t = elim (Bool-cases (ltb e.timestamp start)) [
  | inl p ↦ rw p (Timed-keep start es t.1)
  | inr p ↦ rw p t
]

-- Of events in order, those that are kept are those that are not before `start`.
count-late :
    (p : Event → Bool) (start m : ℕ) (es : List Event)
    → InOrder m es
    → start ≤ m
    → count_from (λ e. p e && leb start e.timestamp) es ≡ count_from p es
count-late p start m [] o h = refl
count-late p start m (e ∷ es) o h =
    let late : leb start e.timestamp ≡ true = ground (arith, h, o.0) in
    rw late (ground (arith, count-late p start e.timestamp es o.1))

pub count-keep :
    (p : Event → Bool) (start m : ℕ) (es : List Event)
    → InOrder m es
    → count_from p (keep start es) ≡ count_from (λ e. p e && leb start e.timestamp) es
unfolding keep
count-keep p start m [] o = refl
count-keep p start m (e ∷ es) o = elim (Bool-cases (ltb e.timestamp start)) [
  | inl q ↦
      let early : leb start e.timestamp ≡ false = ground arith in
      rw (q, early) (ground (arith, count-keep p start e.timestamp es o.1))
  | inr q ↦
      let late : leb start e.timestamp ≡ true = ground arith in
      rw (q, late) (ground (arith, count-late p start e.timestamp es o.1))
]
