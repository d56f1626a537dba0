-- ===== src/Sim/PifoNaive/Drain.antt =====
-- How long a `PIFO_Naive` queue takes to empty when nothing arrives, as while it drains in
-- model/qsim.cc: in each slot a departure and a step.
pub mod Accounts
pub mod Departing
pub mod Slots
pub mod Ending
use homa_nic.Prelude.{
  ℕ, zero, suc, ◌+◌, ◌≤◌, ◌<◌, ◌^◌, ◌≡◌, ◌∙◌, refl, sym, ap, arith, Bool, true, false, leb, ◌==◌,
  not, ◌&&◌, if◌then◌else◌, List, [], ◌∷◌, length, Bool-cases, inl, inr,
}
use homa_nic.Prelude.{
  ok, Any, Never, Ends, Returns, Ends->>=, Ends-map, Ends-and, Ends-Any, Ends-of-Returns, ◌>>=◌,
}
use homa_nic.Prelude.Int.{ℤ, pos, pos_part, -ℤ_parts, eq_ℤ}
use homa_nic.Sim.Entry.{Entry, equiv, null_entry}
use homa_nic.Sim.Multiset.{count, count_all, SameEntries, erase, erase_count, first}
use homa_nic.Sim.Base.{
  Base, Object, add64, serve, send, departure, account, settle, remove_entry, put_back, note_packet,
  note_inaccuracy, note_completion, note_underflow, is_last, sent, chunks,
}
use homa_nic.Sim.Qsim.{snapshot_slot, snapshot_loop}
use homa_nic.Sim.Ideal.Invariant.{Unsent, busy, rest}
use homa_nic.Sim.Ideal.Service.{backlog, backlog-rest, busy_lem}
use homa_nic.Sim.PifoNaive.{Own, pifo_naive, empty, step}
use homa_nic.Sim.PifoNaive.Contents.{contents, count-contents}
use homa_nic.Sim.PifoNaive.Places.{bit}
use homa_nic.Sim.PifoNaive.System.{InSystem, overdue}
use homa_nic.Sim.PifoNaive.Departure.{
  Settled, account-Settled, dequeue_front, dequeue_none, front_length, front_once, front_unsent,
  front_erased, count-settled, chosen, note_underflow-Noted,
}
use homa_nic.Sim.PifoNaive.Events.{
  Kept, departure-Kept, account_null, serve-InSystem, buff-InSystem,
}
use homa_nic.Sim.PifoNaive.Run.{step-Kept}
use homa_nic.Sim.PifoNaive.Step.{SameBase, step-conserves}
use homa_nic.Sim.PifoNaive.Ready.{Ready, step-Ready, size}

-- A message that is longer than an `int` can say.
unfoldable pub too_long : Entry → Bool
too_long e = leb (2 ^ 31) (pos_part e.remaining)

-- The slots that are left while the sorted queue has a message to send: one for each chunk that
-- waits or is being sent, and one when the service node is free.
unfoldable pub pending : Base → ℕ
pending b = backlog b.gqueue + b.buff + (if b.buff == 0 then 1 else 0)

-- One slot more is lost when messages wait and the sorted queue is empty.
unfoldable pub work : Base → Own → ℕ
work b o = pending b + (if length o.hwqueue == 0 && not (length b.gqueue == 0) then 1 else 0)
