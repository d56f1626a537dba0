-- ===== src/Apps.antt =====
-- app/src: the benchmark programs, which write messages to the card and wait for the answers.
pub mod PingPong
pub mod Header
pub mod Word
pub mod Request
pub mod Fill
mod Examples
