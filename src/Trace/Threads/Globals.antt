-- ===== src/Trace/Threads/Globals.antt =====
-- The operations that work on all buffers: `cleanup` and printouts.
use homa_nic.Prelude.{
  ℕ, suc, ◌≤◌, ◌<◌, ◌≡◌, ◌∙◌, refl, sym, ap, subst, Bool, true, false, Option, none, some, List, [],
  ◌∷◌,
}
use homa_nic.Prelude.{
  arith, ltb, ◌==◌, ◌&&◌, if◌then◌else◌, ==_cases, ==_refl, Option-cases, inl, inr,
}
use mathlib.Core.Option as Opt
use homa_nic.Trace.Buffer.{Buffer}
use homa_nic.Trace.Print.{Line, print_internal}
use homa_nic.Trace.Threads.{Cell, Threads, cleanup, gather, print_copied}
use homa_nic.Trace.Threads.Cleanup.{occurs, is_unused, Distinct, cleanup_from-Cleaned}
use homa_nic.Trace.Threads.Consistent.{Object, refs, is_live, Counted, IsConsistent}

listed-Distinct :
    (store : ℕ → Option Cell) (bs : List ℕ)
    → ((b : ℕ) → occurs b bs ≤ (if is_live (store b) then 1 else 0))
    → Distinct store bs
listed-Distinct store [] h = tt
listed-Distinct store (b ∷ bs) h =
    let once : suc (occurs b bs) ≤ (if is_live (store b) then 1 else 0) =
      subst
        (λ t. (if t then suc (occurs b bs) else occurs b bs) ≤ (if is_live (store b) then 1 else 0))
        (==_refl b) (h b) in
    elim (Option-cases (store b)) [
      | inl e ↦ absurd (ground (arith, once, e))
      | inr e ↦ (e, ground (arith, once), listed-Distinct store bs (λ x. ground (arith, h x)))
    ]

-- What `cleanup` makes of a cell with `n` references that is listed `m` times.
cleaned_cell :
    (o : Option Cell) (n m : ℕ)
    → Counted o n
    → m ≡ (if is_live o then 1 else 0)
    → (if ltb 0 m && is_unused o then none else o) ≡ (if n == 0 then none else o)
cleaned_cell none n m h k = ground arith
cleaned_cell (some c) n m h k = rw (h, k) (ground arith)

Counted-cleaned : (o : Option Cell) (n : ℕ) → Counted o n → Counted (if n == 0 then none else o) n
Counted-cleaned none n h = rw h refl
Counted-cleaned (some c) n h = elim (==_cases n 0) [ inl e ↦ rw e refl | inr e ↦ rw e h ]

listed_cleaned :
    (o : Option Cell) (n m : ℕ)
    → Counted o n
    → m ≡ (if is_live o then 1 else 0)
    → (if is_unused o then 0 else m) ≡ (if is_live (if n == 0 then none else o) then 1 else 0)
listed_cleaned none n m h k = rw (h, k) refl
listed_cleaned (some c) n m h k = rw (h, k) (ground arith)

pub cleanup-IsConsistent :
    (s : Threads) (os : List Object)
    → IsConsistent s os
    → (s' : Threads) × (cleanup s ≡ some s')
      × IsConsistent s' os
      × ((b : ℕ) → s'.store b ≡ (if refs b os == 0 then none else s.store b))
unfolding cleanup
cleanup-IsConsistent s os v =
    let (bs, store, q, f, g) =
      cleanup_from-Cleaned s.thread_buffers s.store
        (listed-Distinct s.store s.thread_buffers (λ b. omega (arith, v.listed b))) in
    let now : (b : ℕ) → store b ≡ (if refs b os == 0 then none else s.store b) = λ b.
      f b
      ∙ cleaned_cell (s.store b) (refs b os) (occurs b s.thread_buffers) (v.cells b) (v.listed b) in
    (
      record s { thread_buffers = bs; store = store },
      rw (cleanup, q) refl,
      record {
        held = v.held;
        used = v.used;
        own = v.own;
        cells = λ b. rw (now b) (Counted-cleaned (s.store b) (refs b os) (v.cells b));
        listed = λ b.
            g b
            ∙ listed_cleaned (s.store b) (refs b os) (occurs b s.thread_buffers) (v.cells b)
                (v.listed b)
            ∙ ap (λ o. if is_live o then 1 else 0) (sym (now b));
        new = λ b l. now b ∙ rw (v.new b l) (ground arith);
      },
      now,
    )

-- Printing changes no more than `frozen`.
abbrev printed : Threads → Option (ℕ × List Line) → Option ((ℕ × List Line) × Threads)
printed s p = Opt.map {B = (ℕ × List Line) × Threads} (λ out. (out, record s { frozen = false })) p

pub frozen_after :
    (pointers : List ℕ) (s s' : Threads) (out : ℕ × List Line)
    → print_copied pointers s ≡ some (out, s')
    → s' ≡ record s { frozen = false }
unfolding print_copied
frozen_after pointers s s' out q = by_gather (gather pointers s.store) q
  where
    by_print :
        (p : Option (ℕ × List Line))
        → printed s p ≡ some (out, s')
        → s' ≡ record s { frozen = false }
    by_print none h = absurd (cc)
    by_print (some p) h = cc

    by_gather :
        (g : Option (List Buffer))
        → elim g [ none ↦ none | some bs ↦ printed s (print_internal bs) ] ≡ some (out, s')
        → s' ≡ record s { frozen = false }
    by_gather none h = absurd (cc)
    by_gather (some bs) h = by_print (print_internal bs) h

pub freeze-IsConsistent :
    (f : Bool) (s : Threads) (os : List Object)
    → IsConsistent s os
    → IsConsistent (record s { frozen = f }) os
freeze-IsConsistent f s os v = record {
  held = v.held;
  used = v.used;
  own = v.own;
  cells = v.cells;
  listed = v.listed;
  new = v.new;
}

pub gather-Returns :
    (bs : List ℕ) (store : ℕ → Option Cell)
    → ((b : ℕ) → 0 < occurs b bs → is_live (store b) ≡ true)
    → (out : List Buffer) × (gather bs store ≡ some out)
unfolding gather
gather-Returns [] store h = ([], refl)
gather-Returns (b ∷ bs) store h = elim (Option-cases (store b)) [
  | inl e ↦ absurd (let l = h b (rw (==_refl b) (omega arith)) in cc)
  | inr (c, e) ↦
      let (out, q) = gather-Returns bs store (λ x p. h x (ground (arith, p))) in
      (c.trace ∷ out, rw (gather, e, q) refl)
]

pub gather_fails :
    (bs : List ℕ) (store : ℕ → Option Cell) (b : ℕ)
    → 0 < occurs b bs
    → store b ≡ none
    → gather bs store ≡ none
unfolding gather
gather_fails [] store b h e = absurd (omega arith)
gather_fails (x ∷ bs) store b h e = elim (Option-cases (store x)) [
  | inl q ↦ rw (gather, q) refl
  | inr (c, q) ↦ elim (==_cases b x) [
    | inl same ↦ absurd (let clash : store x ≡ none = subst (λ y. store y ≡ none) same e in cc)
    | inr other ↦
        let rest =
          gather_fails bs store b
            (subst (λ t. 0 < (if t then suc (occurs b bs) else occurs b bs)) other h) e in
        rw (gather, q, rest) refl
  ]
]
