-- ===== src/Presentation.antt =====
-- The presentation of matches, of purr/src/match_presentation.rs.
pub mod Context
pub mod Cache
pub mod Items
mod Tests
