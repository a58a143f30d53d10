-- ===== src/Search.antt =====
-- The search of the crate purr around its ranking.
pub mod Admission
pub mod Tail
pub mod Detection
mod Tests
