-- ===== src/Ranking.antt =====
-- The search ranking of purr/src/ranking.rs and purr/src/ranking.
pub mod Types
pub mod Order
pub mod ScoreOrder
pub mod Policy
pub mod Chars
pub mod Matches
pub mod Signals
pub mod Alignment
pub mod Folding
pub mod Matching
pub mod Tokens
pub mod Document
pub mod Candidates
pub mod Score
mod Tests
