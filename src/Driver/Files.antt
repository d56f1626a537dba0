-- ===== src/Driver/Files.antt =====
-- driver/homanic.c: the sessions of the files that are open at one time, `private_data` of each.
-- Calls come one after the other: the driver has no lock, and says so of simultaneous opens.
use homa_nic.Prelude.{
  ℕ, suc, ◌≤◌, ◌≡◌, ◌⊎◌, inl, inr, refl, ap, sym, subst, Bool-cases, arith, List, [], ◌∷◌, ◌==◌,
  if◌then◌else◌, ==_cases, none, some,
}
use homa_nic.Driver.{Driver, Buffer, Call, opens, closes, homanic_init, homanic_open, step}
use homa_nic.Driver.Laws.{IsTaken, open_cases, step-IsTaken, opened-IsTaken}

-- How many files have the session `i`.
abbrev pub users : ℕ → List ℕ → ℕ
users i [] = 0
users i (j ∷ fs) = if i == j then suc (users i fs) else users i fs

-- The files without one that has the session `i`.
abbrev close_file : ℕ → List ℕ → List ℕ
close_file i [] = []
close_file i (j ∷ fs) = if i == j then fs else j ∷ close_file i fs

users-close_file : (i j : ℕ) (fs : List ℕ) → users i (close_file j fs) ≤ users i fs
users-close_file i j [] = omega arith
users-close_file i j (k ∷ fs) = ground (arith, users-close_file i j fs)

module _ (alloc : ℕ → Buffer) where
  -- The open files after a call.
  unfoldable pub files_after : Call → Driver → List ℕ → List ℕ
  files_after opens d fs = elim ((homanic_open alloc d).1) [ none ↦ fs | some i ↦ i ∷ fs ]
  files_after (closes i) d fs = close_file i fs

  unfoldable pub run_files : List Call → Driver → List ℕ → List ℕ
  run_files [] d fs = fs
  run_files (c ∷ cs) d fs = run_files cs (step alloc c d) (files_after c d fs)

-- At most one file has a session, which is then assigned.
abbrev Exclusive : Driver → List ℕ → Type 0
Exclusive d fs = (i : ℕ) → (users i fs ≡ 0) ⊎ ((users i fs ≡ 1) × IsTaken i d)

module _ (alloc : ℕ → Buffer) where
  -- The session that `open` finds free is that of no file.
  free-Exclusive :
      (d : Driver) (fs : List ℕ)
      → Exclusive d fs
      → Exclusive (step alloc opens d) (files_after alloc opens d fs)
  unfolding step files_after
  free-Exclusive d fs h i = elim (open_cases alloc d) [
    | inl (_, e) ↦ rw (e, files_after, step) (h i)
    | inr (j, f, e, gj, free, _, _, _) ↦
        let after = opened-IsTaken alloc d _ j e in
        rw (e, files_after)
          (elim (Bool-cases (i == j)) [
            | inl p ↦
                let same : i ≡ j = ground arith in
                elim (h i) [
                  | inl unused ↦ inr (
                    rw p (ap suc unused),
                    subst (λ k. IsTaken k (step alloc opens d)) (sym same) (rw (step, e) after),
                  )
                  | inr (_, (t, gt, taken)) ↦ absurd (cc)
                ]
            | inr other ↦ elim (h i) [
              | inl unused ↦ inl (rw other unused)
              | inr (one, taken) ↦ inr (rw other one, step-IsTaken alloc opens d i taken)
            ]
          ])
  ]

  step-Exclusive :
      (c : Call) (d : Driver) (fs : List ℕ)
      → Exclusive d fs
      → Exclusive (step alloc c d) (files_after alloc c d fs)
  unfolding files_after
  step-Exclusive opens d fs h i = free-Exclusive d fs h i
  step-Exclusive (closes j) d fs h i =
      let fewer = users-close_file i j fs in
      elim (h i) [
        | inl unused ↦ inl (omega arith)
        | inr (one, taken) ↦ elim (==_cases (users i (close_file j fs)) 0) [
          | inl unused ↦ inl unused
          | inr used ↦
              inr (ground (arith, fewer, one, used), step-IsTaken alloc (closes j) d i taken)
        ]
      ]

  run-Exclusive :
      (cs : List Call) (d : Driver) (fs : List ℕ)
      → Exclusive d fs
      → (i : ℕ) → users i (run_files alloc cs d fs) ≤ 1
  unfolding run_files
  run-Exclusive [] d fs h i = elim (h i) [ inl unused ↦ omega arith | inr (one, _) ↦ omega arith ]
  run-Exclusive (c ∷ cs) d fs h i =
      run-Exclusive cs (step alloc c d) (files_after alloc c d fs) (step-Exclusive c d fs h) i

  -- After any opens and closes of the device, one after the other, each session is that of at most
  -- one of the files that are open.
  pub files_exclusive : (cs : List Call) (i : ℕ) → users i (run_files alloc cs homanic_init []) ≤ 1
  files_exclusive cs i = run-Exclusive cs homanic_init [] (λ j. inl refl) i
