-- ===== src/Driver/Laws.antt =====
-- Which session an `open` gets and what stays of it.
use homa_nic.Prelude.{
  ℕ, zero, suc, ◌+◌, ◌≡◌, ◌≢◌, ◌⊎◌, inl, inr, refl, ap, subst, ◌∙◌, Bool, true, false, not, ◌==◌,
}
use homa_nic.Prelude.{List, [], ◌∷◌, get_elem?, get_elem?-set_self, get_elem?-set_ne, All}
use homa_nic.Prelude.{Option, some, none, arith, if◌then◌else◌, Bool-cases, lt_of_get_elem?}
use homa_nic.Driver.{
  Driver, Session, Buffer, Call, opens, closes, homanic_open, homanic_close, find_free, set_up,
  assign, step, run,
}

-- Every session before `i` is assigned.
abbrev pub TakenBelow : ℕ → List Session → Type 0
TakenBelow zero ss = Unit {0}
TakenBelow (suc i) [] = Unit {0}
TakenBelow (suc i) (s ∷ ss) = (s.assigned ≡ true) × TakenBelow i ss

abbrev pub AllTaken : List Session → Type 0
AllTaken ss = All (λ s. s.assigned ≡ true) ss

-- What the search finds: no free session, or the first one.
abbrev Search : List Session → Option ℕ → Type 0
Search ss none = AllTaken ss
Search ss (some i) =
    (s : Session) × (get_elem? ss i ≡ some s) × (s.assigned ≡ false) × TakenBelow i ss

extend :
    (s : Session) (ss : List Session) (b : Bool) (o : Option ℕ)
    → s.assigned ≡ b
    → Search ss o
    → Search (s ∷ ss) (if not b then some 0 else (elim o [ none ↦ none | some i ↦ some (suc i) ]))
extend s ss false o e h = (s, refl, e, tt)
extend s ss true none e h = (e, h)
extend s ss true (some i) e (t, g, f, b) = (t, g, f, (e, b))

find_free-Search : (ss : List Session) → Search ss (find_free ss)
unfolding find_free
find_free-Search [] = tt
find_free-Search (s ∷ ss) = extend s ss s.assigned (find_free ss) refl (find_free-Search ss)

module _ (alloc : ℕ → Buffer) where
  -- An `open` that succeeds: it takes the first free session, gives it three new buffers, leaves
  -- the other sessions, and writes the three mappings.
  abbrev pub Opened : Driver → ℕ × Option ℕ × Driver → Type 0
  Opened d r =
      (i : ℕ) × (s : Session) × (r ≡ (0, some i, set_up alloc i s d))
      × (get_elem? d.sessions i ≡ some s)
      × (s.assigned ≡ false)
      × TakenBelow i d.sessions
      × (get_elem? (set_up alloc i s d).sessions i
          ≡ some (assign s (alloc d.calls) (alloc (d.calls + 1)) (alloc (d.calls + 2))))
      × ((j : ℕ) → (i ≡ j) ⊎ (get_elem? (set_up alloc i s d).sessions j ≡ get_elem? d.sessions j))

  open_result :
      (d : Driver) (o : Option ℕ)
      → find_free d.sessions ≡ o
      → Search d.sessions o
      → (AllTaken d.sessions × (homanic_open alloc d ≡ (1, none, d)))
        ⊎ Opened d (homanic_open alloc d)
  unfolding homanic_open
  open_result d none e h = inl (h, rw (e, homanic_open))
  open_result d (some i) e (s, g, f, b) = inr (
    i,
    s,
    rw (e, homanic_open, g),
    g,
    f,
    b,
    unfold set_up in
        get_elem?-set_self d.sessions i
          (assign s (alloc d.calls) (alloc (d.calls + 1)) (alloc (d.calls + 2)))
          (lt_of_get_elem? d.sessions i g),
    λ j. elim (Bool-cases (i == j)) [
      | inl same ↦ inl (ground arith)
      | inr other ↦ inr (unfold set_up in get_elem?-set_ne d.sessions _ (ground arith))
    ],
  )

  -- An `open` fails exactly as the code says when every session is assigned: it returns 1 and
  -- changes nothing. Otherwise it returns 0 with the first session that is free, now assigned with
  -- three new buffers; the other sessions stay.
  pub open_cases :
      (d : Driver)
      → (AllTaken d.sessions × (homanic_open alloc d ≡ (1, none, d)))
        ⊎ Opened d (homanic_open alloc d)
  open_cases d = open_result d (find_free d.sessions) refl (find_free-Search d.sessions)

-- The session `i` is assigned.
abbrev pub IsTaken : ℕ → Driver → Type 0
IsTaken i d = (s : Session) × (get_elem? d.sessions i ≡ some s) × (s.assigned ≡ true)

get_taken :
    (ss : List Session) (i : ℕ) {s : Session}
    → AllTaken ss
    → get_elem? ss i ≡ some s
    → s.assigned ≡ true
get_taken [] i h e = absurd (cc)
get_taken (x ∷ ss) zero h e = cc
get_taken (x ∷ ss) (suc i) h e = get_taken ss i h.1 e

pub sessions-close : (i : ℕ) (d : Driver) → (homanic_close i d).sessions ≡ d.sessions
unfolding homanic_close
sessions-close i d = ground arith

moved :
    (alloc : ℕ → Buffer) (d : Driver) (j i : ℕ) (f : Session) {t : Option Session}
    → j ≡ i
    → get_elem? (set_up alloc j f d).sessions j ≡ t
    → get_elem? (set_up alloc j f d).sessions i ≡ t
moved alloc d j i f {t} e h = subst (λ k. get_elem? (set_up alloc j f d).sessions k ≡ t) e h

module _ (alloc : ℕ → Buffer) where
  pub step-IsTaken : (c : Call) (d : Driver) (i : ℕ) → IsTaken i d → IsTaken i (step alloc c d)
  unfolding step
  step-IsTaken opens d i (s, g, t) = elim (open_cases alloc d) [
    | inl (_, e) ↦ rw (e, step) (s, g, t)
    | inr (j, f, e, gj, free, _, new, others) ↦
        rw (e, step)
          (elim (Bool-cases (j == i)) [
            | inl same ↦
                let same' : j ≡ i = ground arith in
                (
                  assign f (alloc d.calls) (alloc (d.calls + 1)) (alloc (d.calls + 2)),
                  moved alloc d j i f same' new,
                  unfold assign in refl,
                )
            | inr other ↦ elim (others i) [
              | inl same ↦ absurd (ground arith)
              | inr kept ↦ (s, kept ∙ g, t)
            ]
          ])
  ]
  step-IsTaken (closes j) d i (s, g, t) =
      (s, ap (λ (ss : List Session). get_elem? ss i) (sessions-close j d) ∙ g, t)

  run-IsTaken : (cs : List Call) (d : Driver) (i : ℕ) → IsTaken i d → IsTaken i (run alloc cs d)
  unfolding run
  run-IsTaken [] d i h = h
  run-IsTaken (c ∷ cs) d i h = run-IsTaken cs (step alloc c d) i (step-IsTaken c d i h)

  pub opened-IsTaken :
      (d d' : Driver) (i : ℕ) → homanic_open alloc d ≡ (0, some i, d') → IsTaken i d'
  opened-IsTaken d d' i e = elim (open_cases alloc d) [
    | inl (_, f) ↦ absurd (cc)
    | inr (j, s, f, _, _, _, new, _) ↦
        let index : j ≡ i = ground arith in
        let state : set_up alloc j s d ≡ d' = ground arith in
        (
          assign s (alloc d.calls) (alloc (d.calls + 1)) (alloc (d.calls + 2)),
          rw (← state, ← index) new,
          unfold assign in refl,
        )
  ]

  -- A session that an `open` has returned is not returned again, since `close` does not free it.
  pub open_exclusive :
      (d d' : Driver) (i : ℕ) (cs : List Call)
      → homanic_open alloc d ≡ (0, some i, d')
      → (homanic_open alloc (run alloc cs d')).1 ≢ some i
  open_exclusive d d' i cs e again = elim (open_cases alloc (run alloc cs d')) [
    | inl (_, f) ↦ cc
    | inr (j, s, f, g, free, _, _, _) ↦
        let index : j ≡ i = ground arith in
        let (t, h, taken) = run-IsTaken cs d' i (opened-IsTaken d d' i e) in absurd (cc)
  ]

  step-AllTaken : (c : Call) (d : Driver) → AllTaken d.sessions → AllTaken (step alloc c d).sessions
  unfolding step
  step-AllTaken opens d h = elim (open_cases alloc d) [
    | inl (_, e) ↦ rw (e, step) h
    | inr (j, f, _, gj, free, _, _, _) ↦ let taken = get_taken d.sessions j h gj in absurd (cc)
  ]
  step-AllTaken (closes j) d h = rw (sessions-close j d) h

  run-AllTaken :
      (cs : List Call) (d : Driver) → AllTaken d.sessions → AllTaken (run alloc cs d).sessions
  unfolding run
  run-AllTaken [] d h = h
  run-AllTaken (c ∷ cs) d h = run-AllTaken cs (step alloc c d) (step-AllTaken c d h)

  -- Once every session is assigned, every later `open` fails, however many files were closed.
  pub open_exhausted :
      (d : Driver) (cs : List Call)
      → AllTaken d.sessions
      → homanic_open alloc (run alloc cs d) ≡ (1, none, run alloc cs d)
  open_exhausted d cs h = elim (open_cases alloc (run alloc cs d)) [
    | inl (_, e) ↦ e
    | inr (j, f, _, gj, free, _, _, _) ↦
        let taken = get_taken (run alloc cs d).sessions j (run-AllTaken cs d h) gj in absurd (cc)
  ]
