-- ===== src/Trace/Threads/Leave.antt =====
-- What the destructor of `thread_buffer` does.
use homa_nic.Prelude.{ℕ, suc, ◌≤◌, ◌<◌, ◌≡◌, ◌∙◌, refl, ap, subst, false, Option, none, some, List}
use homa_nic.Prelude.{
  arith, get_elem?, ◌==◌, if◌then◌else◌, ==_cases, ==_refl, Bool-cases, inl, inr,
}
use homa_nic.Prelude.Int.{pos, eq_ℤ, ◌-ℤ◌}
use homa_nic.Trace.Threads.{Cell, Threads, update, destroy}
use homa_nic.Trace.Threads.Cleanup.{occurs}
use homa_nic.Trace.Threads.Consistent.{
  Object, refs, remove, is_live, Counted, IsConsistent, refs-get, refs-remove, get-remove,
  update_cases, drop_ref, Counted-drop_ref,
}

-- The state after the destructor of an object with the buffer `b`, but for `tb`.
abbrev without_ref : ℕ → Cell → (ℕ → Option ℕ) → Threads → Threads
without_ref b c tb s = record s { store = update b (some (drop_ref c)) s.store; tb = tb }

module _ (s : Threads) (os : List Object) (i : ℕ) (o : Object) (c : Cell) (v : IsConsistent s os)
    (g : get_elem? os i ≡ some o) (k : s.store o.buffer ≡ some c) where
  refs_here : refs o.buffer os ≡ suc (refs o.buffer (remove os i))
  refs_here = refs-remove os i o.buffer g ∙ rw (==_refl o.buffer) refl

  refs_elsewhere : (b : ℕ) → (b == o.buffer) ≡ false → refs b os ≡ refs b (remove os i)
  refs_elsewhere b n = refs-remove os i b g ∙ rw n refl

  counted : Counted (some (drop_ref c)) (refs o.buffer (remove os i))
  counted = Counted-drop_ref c (refs o.buffer (remove os i)) (
      subst (Counted (some c)) refs_here
        (subst (λ d. Counted d (refs o.buffer os)) k (v.cells o.buffer)))

  -- All but what the destructor does to `tb`.
  leave-IsConsistent :
      (tb : ℕ → Option ℕ)
      → ((j : ℕ) (p : Object) → get_elem? (remove os i) j ≡ some p → tb p.thread ≡ some p.buffer)
      → ((t b : ℕ) → tb t ≡ some b → 0 < refs b (remove os i))
      → ((t u b : ℕ) → tb t ≡ some b → tb u ≡ some b → t ≡ u)
      → IsConsistent (without_ref o.buffer c tb s) (remove os i)
  leave-IsConsistent tb held used own = record {
    held = λ j e. held j _ e;
    used = λ t e. used t _ e;
    own = λ t u e f. own t u _ e f;
    cells =
        update_cases (λ j d. Counted d (refs j (remove os i))) o.buffer s.store counted
          (λ j n. subst (Counted (s.store j)) (refs_elsewhere j n) (v.cells j));
    listed =
        update_cases (λ j d. occurs j s.thread_buffers ≡ (if is_live d then 1 else 0)) o.buffer
          s.store (v.listed o.buffer ∙ rw k refl) (λ j n. v.listed j);
    new =
        update_cases (λ j d. s.unused ≤ j → d ≡ none) o.buffer s.store
          (λ l. absurd (let gone = v.new o.buffer l in cc)) (λ j n. v.new j);
  }

  -- Other objects of the thread are left.
  stays :
      0 < refs o.buffer (remove os i) → IsConsistent (without_ref o.buffer c s.tb s) (remove os i)
  stays p =
      leave-IsConsistent s.tb (λ j p' e. let (m, f) = get-remove os i j e in v.held m f)
        (λ t b e. elim (==_cases b o.buffer) [
          | inl h ↦ rw h p
          | inr h ↦ omega (arith, v.used t e, refs_elsewhere b h)
        ])
        (λ t u b e f. v.own t u e f)

  -- It was the last one: the thread has no buffer any more.
  goes :
      refs o.buffer (remove os i) ≡ 0
      → IsConsistent (without_ref o.buffer c (update o.thread none s.tb) s) (remove os i)
  goes z =
      leave-IsConsistent (update o.thread none s.tb)
        (λ j p e.
          let (m, f) = get-remove os i j e in
          update_cases (λ t r. t ≡ p.thread → r ≡ some p.buffer) o.thread s.tb
            (λ same.
              let here : s.tb p.thread ≡ some p.buffer = v.held m f in
              let there : s.tb o.thread ≡ some o.buffer = v.held i g in
              let shared : o.buffer ≡ p.buffer = cc in
              absurd (
                omega (
                  arith,
                  subst (λ b. refs b (remove os i) ≡ 0) shared z,
                  refs-get (remove os i) j e,
                )))
            (λ t n same. ap s.tb same ∙ v.held m f) p.thread refl)
        (λ t b e.
          update_cases (λ t r. r ≡ some b → 0 < refs b (remove os i)) o.thread s.tb
            (λ q. absurd (cc))
            (λ t n q. elim (==_cases b o.buffer) [
              | inl h ↦
                  let same : t ≡ o.thread = v.own t o.thread q (rw h (v.held i g)) in
                  absurd (ground (arith, same, n))
              | inr h ↦ omega (arith, v.used t q, refs_elsewhere b h)
            ])
            t e)
        (λ t u b e f.
          update_cases (λ t r. r ≡ some b → update o.thread none s.tb u ≡ some b → t ≡ u) o.thread
            s.tb (λ q r. absurd (cc))
            (λ t n q.
              update_cases (λ u r. r ≡ some b → t ≡ u) o.thread s.tb (λ r. absurd (cc))
                (λ u m r. v.own t u q r) u)
            t e f)

  -- The destructor completes, and leaves a consistent state.
  pub destroy-IsConsistent :
      (s' : Threads) × (destroy o.thread o.buffer s ≡ some s') × IsConsistent s' (remove os i)
  unfolding destroy
  destroy-IsConsistent = elim (Bool-cases (eq_ℤ (c.ref_count -ℤ pos 1) (pos 0))) [
    | inl p ↦ (_, rw (destroy, k, p) refl, goes (ground (arith, counted)))
    | inr p ↦ (_, rw (destroy, k, p) refl, stays (ground (arith, counted)))
  ]
