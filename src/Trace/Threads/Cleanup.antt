-- ===== src/Trace/Threads/Cleanup.antt =====
-- What the loop of `cleanup` deletes.
use homa_nic.Prelude.{
  ℕ, suc, ◌≡◌, ◌∙◌, refl, ap, Bool, false, ◌&&◌, Option, none, some, List, [], ◌∷◌,
}
use homa_nic.Prelude.{arith, ltb, ◌==◌, if◌then◌else◌, Bool-cases, ==_cases, ==_refl, inl, inr}
use homa_nic.Prelude.Int.{pos, eq_ℤ}
use homa_nic.Trace.Threads.{Cell, update, cleanup_from}

-- How often a buffer is in a list of pointers.
abbrev pub occurs : ℕ → List ℕ → ℕ
occurs b [] = 0
occurs b (x ∷ xs) = if b == x then suc (occurs b xs) else occurs b xs

-- Is this a buffer that no object refers to?
abbrev pub is_unused : Option Cell → Bool
is_unused o = elim o [ none ↦ false | some c ↦ eq_ℤ c.ref_count (pos 0) ]

-- The buffers of the list are on the heap, each once.
abbrev pub Distinct : (ℕ → Option Cell) → List ℕ → Type 0
Distinct store [] = Unit
Distinct store (b ∷ bs) = ((c : Cell) × (store b ≡ some c)) × (occurs b bs ≡ 0) × Distinct store bs

-- The loop completes; it deletes the unused buffers of the list and takes them off it.
abbrev pub Cleaned : List ℕ → (ℕ → Option Cell) → Option (List ℕ × (ℕ → Option Cell)) → Type 0
Cleaned bs store r =
    (bs' : List ℕ) × (store' : ℕ → Option Cell) × (r ≡ some (bs', store'))
    × ((b : ℕ) → store' b ≡ (if ltb 0 (occurs b bs) && is_unused (store b) then none else store b))
    × ((b : ℕ) → occurs b bs' ≡ (if is_unused (store b) then 0 else occurs b bs))

cleanup_round :
    (b : ℕ) (bs : List ℕ) (store : ℕ → Option Cell)
    → Distinct store (b ∷ bs)
    → Cleaned bs store (cleanup_from bs store)
    → Cleaned (b ∷ bs) store (cleanup_from (b ∷ bs) store)
unfolding cleanup_from
cleanup_round b bs store ((c, e), n, d) (bs', store', q, f, g) =
    let same : store' b ≡ some c = f b ∙ rw (n, e) refl in
    let none_left : occurs b bs' ≡ 0 = rw (g b, n) (ground arith) in
    let self = ==_refl b in
    elim (Bool-cases (eq_ℤ c.ref_count (pos 0))) [
      | inl p ↦ (
        bs',
        update b none store',
        rw (q, same, p) refl,
        (λ x. elim (==_cases x b) [
          | inl h ↦ rw (h, self, e, p) (ground arith)
          | inr h ↦ rw h (f x)
        ]),
        λ x. elim (==_cases x b) [
          | inl h ↦ rw (h, self, e, p, none_left) refl
          | inr h ↦ rw h (g x)
        ],
      )
      | inr p ↦ (
        b ∷ bs',
        store',
        rw (q, same, p) refl,
        (λ x. elim (==_cases x b) [
          | inl h ↦ rw (h, self, same, e, p) (ground arith)
          | inr h ↦ rw h (f x)
        ]),
        λ x. elim (==_cases x b) [
          | inl h ↦ rw (h, self, e, p) (ap suc (g x ∙ rw (ap store h ∙ e, p) refl))
          | inr h ↦ rw h (g x)
        ],
      )
    ]

pub cleanup_from-Cleaned :
    (bs : List ℕ) (store : ℕ → Option Cell)
    → Distinct store bs
    → Cleaned bs store (cleanup_from bs store)
unfolding cleanup_from
cleanup_from-Cleaned [] store d = ([], store, refl, (λ b. refl), λ b. ground arith)
cleanup_from-Cleaned (b ∷ bs) store d =
    cleanup_round b bs store d (cleanup_from-Cleaned bs store d.2)
