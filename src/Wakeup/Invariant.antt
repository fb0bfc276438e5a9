-- ===== src/Wakeup/Invariant.antt =====
-- What is still owed to a context's thread when it goes to sleep.
mod Defs
mod Others
mod Io
mod Thread
pub use Defs.*
pub use Others.*
pub use Io.*
pub use Thread.*
