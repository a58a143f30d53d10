-- ===== src/Sync.antt =====
-- purr-sync: event-sourced synchronisation of clipboard items.
pub mod Types
pub mod Projector
pub mod Event
pub mod Db
pub mod Monad
pub mod Store
pub mod Replay
pub mod Compactor
pub mod Examples
mod Tests
mod LoopTests
