-- ===== src/Results.antt =====
-- The results of a search, of purr/src/search_result_builder.rs and purr/src/search_service.rs.
pub mod Query
pub mod Outcome
pub mod Trigram
mod Tests
