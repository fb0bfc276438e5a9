-- ===== src/Io/Invariant.antt =====
-- Every operation is in one place, and the counters add up.
mod Counting
mod Submitting
mod Completing
pub use Counting.*
pub use Submitting.*
pub use Completing.*
