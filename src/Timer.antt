-- ===== src/Timer.antt =====
-- include/coro/timer.hpp: the calls that add to the time of a timer.
pub mod Total
mod Tests
use sheepcoro.Base.{ℕ, ◌+◌, ◌-◌, ◌*◌, ◌/◌, ◌%◌, ◌^◌, Bool, true, false, ◌==◌, if◌then◌else◌}

-- The bit patterns of m_ts.tv_sec and m_ts.tv_nsec, and m_flag.
pub record Timer : Type 0 where
  pub tv_sec : ℕ
  pub tv_nsec : ℕ
  pub flag : ℕ

unfoldable pub add_seconds : ℕ → Timer → Timer
add_seconds seconds t = record t { tv_sec = (t.tv_sec + seconds) % 2 ^ 64 }

unfoldable pub add_mseconds : ℕ → Timer → Timer
add_mseconds mseconds t = record t { tv_nsec = (t.tv_nsec + 1000000 * mseconds % 2 ^ 64) % 2 ^ 64 }

unfoldable pub add_useconds : ℕ → Timer → Timer
add_useconds useconds t = record t { tv_nsec = (t.tv_nsec + 1000 * useconds % 2 ^ 64) % 2 ^ 64 }

unfoldable pub add_nseconds : ℕ → Timer → Timer
add_nseconds nseconds t = record t { tv_nsec = (t.tv_nsec + nseconds) % 2 ^ 64 }
