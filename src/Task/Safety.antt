-- ===== src/Task/Safety.antt =====
-- What include/coro/task.hpp promises about frames.
use sheepcoro.Base.{◌+◌, ◌≡◌, ◌≢◌, true, arith, if◌then◌else◌}
use sheepcoro.Awaiters.{Ptr, null}
use sheepcoro.Task.{Handle, Heap}
use sheepcoro.Task.System.{Reach}
use sheepcoro.Task.Invariant.{Reach-Inv}

-- In every reachable state the frame of a task exists, it is the frame of no other task, and every
-- frame has been destroyed as often as it was created, once less if it exists. The public
-- constructor is given only handles of attached frames that exist and that no task has, and `clean`
-- only frames that exist.
pub one_owner :
    {s : Heap}
    → Reach s
    → (t : Ptr) → s.coroutine t ≢ null
    → (s.live (s.coroutine t) ≡ true)
      × ((u : Ptr) → s.coroutine u ≡ s.coroutine t → u ≡ t)
      × ((h : Handle) → s.created h ≡ s.destroyed h + (if s.live h then 1 else 0))
one_owner r t n =
    let inv = Reach-Inv r in (inv.owns t n, λ u e. ground (arith, inv.apart t u), inv.times)
