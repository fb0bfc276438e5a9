-- ===== src/CondVar/Invariant.antt =====
-- The invariant, and that every step keeps it.
mod Defs
mod Locking
mod Waiting
pub use Defs.*
pub use Locking.*
pub use Waiting.*
