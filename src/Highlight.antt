-- ===== src/Highlight.antt =====
-- The highlights, excerpts and previews of purr/src/search.rs.
pub mod Types
pub mod Utf16
pub mod Focus
pub mod Densest
pub mod Excerpt
pub mod Snippet
pub mod Words
pub mod Analysis
mod Tests
