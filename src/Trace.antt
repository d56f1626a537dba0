-- ===== src/Trace.antt =====
-- app/lib/time_trace.h and app/lib/time_trace.cc: each thread records events in a circular buffer,
-- and a printout merges the buffers by time.
pub mod Buffer
pub mod Print
pub mod Threads
mod Examples
