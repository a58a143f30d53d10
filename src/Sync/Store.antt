-- ===== src/Sync/Store.antt =====
-- purr-sync/src/store.rs: the methods of `SyncStore`, each on one table.
mod Events
mod Snapshots
mod Projection
mod Deferred
mod Upkeep
mod Queue
pub mod Laws
pub mod Rebuild
unfoldable pub use Events.*
unfoldable pub use Snapshots.*
unfoldable pub use Projection.*
unfoldable pub use Deferred.*
unfoldable pub use Upkeep.*
unfoldable pub use Queue.*
