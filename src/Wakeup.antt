-- ===== src/Wakeup.antt =====
-- How a context's thread sleeps and is woken: `run` of src/context.cpp, `poll_submit`, `submit_task`
-- and `wake_up` of src/engine.cpp, and the eventfd of include/coro/uring_proxy.hpp.
pub mod System
pub mod Invariant
pub mod Safety
pub mod Progress
pub mod Blocked
pub mod Overrun
mod Tests
use sheepcoro.Base.{
  ℕ, ◌+◌, ◌-◌, ◌^◌, Bool, true, false, Option, none, some, ◌==◌, ltb, leb, if◌then◌else◌,
}
use sheepcoro.Engine.{task_flag}

-- What the counter of an eventfd can hold.
abbrev pub max_count : ℕ
max_count = 2 ^ 64 - 2

-- `write_eventfd`; none where the write would wait.
abbrev pub write_eventfd : (num : ℕ) → (count : ℕ) → Option ℕ
write_eventfd num count = if leb (count + num) max_count then some (count + num) else none

-- `wait_eventfd`: the count that is read, and the count after it; none where the read would wait.
abbrev pub wait_eventfd : (count : ℕ) → Option (ℕ × ℕ)
wait_eventfd count = if count == 0 then none else some (count, 0)

-- `engine::wake_up`
abbrev pub wake_up : (count : ℕ) → Option ℕ
wake_up count = write_eventfd task_flag count

-- Where the context's thread stands.
pub data Pc : Type 0 where
  head : Pc  -- at the test of `run`
  working : (left : ℕ) → Pc  -- in process_work, with this many tasks still to run
  running : (left : ℕ) → Pc  -- in a coroutine that process_work has resumed
  checking : Pc  -- at empty_wait_task
  idle : Pc  -- at `ready`
  stopping : Pc  -- at m_stop_cb
  polling : Pc  -- at poll_work
  reading : Pc  -- in wait_eventfd
  peeking : Pc  -- at peek_batch_cqe
  handling : (left num : ℕ) → Pc  -- in the loop over num completions, with left still to handle
  writing : Pc → Pc  -- in wake_up, which it has called from there
  ended : Pc  -- past the loop of `run`
  closed : Pc  -- past `deinit`, which closes the eventfd

-- Where the thread runs coroutines, which may call it.
abbrev pub acts : Pc → Bool
acts (running _) = true
acts (handling _ _) = true
acts _ = false

-- What peek_batch_cqe gives of `ready` completions.
abbrev pub peek_num : (ready limit : ℕ) → ℕ
peek_num ready limit = if leb ready limit then ready else limit
