-- ===== src/Sim.antt =====
-- model/queues.hh and model/qsim.cc: the simulator of the NIC's priority queues.
pub mod Entry
pub mod Multiset
pub mod Base
pub mod Qsim
pub mod Idle
pub mod Ideal
pub mod PifoNaive
pub mod Main
mod Examples
