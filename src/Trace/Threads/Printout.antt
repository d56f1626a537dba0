-- ===== src/Trace/Threads/Printout.antt =====
-- app/lib/time_trace.cc: a printout on one thread, with `cleanup` on another between its two steps.
use homa_nic.Prelude.{ℕ, ◌≡◌, ◌<◌, ◌∙◌, refl, subst, none, some, List, arith}
use homa_nic.Trace.Buffer.{Buffer}
use homa_nic.Trace.Threads.{Threads, cleanup, copy_pointers, gather, print_copied, freeze}
use homa_nic.Trace.Threads.Cleanup.{occurs}
use homa_nic.Trace.Threads.Consistent.{Object, refs, Runs, stop}
use homa_nic.Trace.Threads.Globals.{gather-Returns, gather_fails}
use homa_nic.Trace.Threads.Safety.{Runs-IsConsistent, cleanup_exact}

-- In every state that a program can reach, the pointers that a printout copies lead to buffers that
-- exist. When one of these buffers has no object any more, and `cleanup` runs before the printout
-- follows the pointers, then the printout follows a pointer to a deleted buffer.
pub print_race :
    (s s' : Threads) (os : List Object) (b : ℕ)
    → Runs s os
    → 0 < occurs b s.thread_buffers
    → refs b os ≡ 0
    → cleanup (copy_pointers s).1 ≡ some s'
    → ((bs : List Buffer) × (gather (copy_pointers s).0 (copy_pointers s).1.store ≡ some bs))
      × (print_copied (copy_pointers s).0 s' ≡ none)
unfolding copy_pointers freeze print_copied
print_race s s' os b r listed unused q =
    let v = Runs-IsConsistent s os r in
    let (t, q', deleted) = cleanup_exact (freeze s) os (stop r) in
    let same : t ≡ s' = cc in
    let gone : s'.store b ≡ none =
      subst (λ (u : Threads). u.store b ≡ none) same (deleted b ∙ rw unused refl) in
    (
      gather-Returns s.thread_buffers s.store (λ x p. ground (arith, v.listed x, p)),
      rw (print_copied, gather_fails s.thread_buffers s'.store b listed gone) refl,
    )
