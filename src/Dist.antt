-- ===== src/Dist.antt =====
-- model/dist.h and model/dist.cc: the workload distributions, as cumulative distributions of
-- message lengths. A fraction is a whole number of units of 10^-16, which holds every fraction of
-- the tables as it is written; the roundings of `double` are not modelled.
pub mod Point
pub mod W1
pub mod W2
pub mod W3
pub mod W4
pub mod W5
pub mod Cdf
pub mod Generator
pub mod Construct
pub mod Sample
pub mod Draw
pub mod Overhead
mod Examples
