-- ===== src/Event/Invariant.antt =====
-- The invariant of an event, and that every step keeps it.
mod Defs
mod Waiting
mod Setting
pub use Defs.*
pub use Waiting.*
pub use Setting.*
