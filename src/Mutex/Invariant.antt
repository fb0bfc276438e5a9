-- ===== src/Mutex/Invariant.antt =====
-- How the word, the two lists and the coroutines of a mutex fit together.
mod Defs
mod Locking
mod Unlocking
mod Draining
pub use Defs.*
pub use Locking.*
pub use Unlocking.*
pub use Draining.*
