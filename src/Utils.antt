-- ===== src/Utils.antt =====
-- app/lib/test_utils.cc: the functions that compute something. Printing, pinning of threads and the
-- cycle clock are left out.
pub mod Seed
pub mod Split
pub mod Message
pub mod Percentile
mod Examples
mod SortExample
