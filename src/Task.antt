-- ===== src/Task.antt =====
-- include/coro/task.hpp: who owns the frame of a coroutine.
pub mod System
pub mod Invariant
pub mod Safety
mod Tests
use sheepcoro.Base.{ℕ, ◌+◌, Bool, true, false, ◌&&◌, not, Option, none, some, ◌==◌, if◌then◌else◌}
use sheepcoro.Awaiters.{Ptr, null, update}

-- The address of a frame; 0 is nullptr.
abbrev pub Handle : Type 0
Handle = ℕ

-- coro_state
pub data CoroState : Type 0 where
  normal : CoroState
  detach : CoroState
  none_state : CoroState

abbrev pub is_detach : CoroState → Bool
is_detach detach = true
is_detach _ = false

-- For each frame whether it exists, whether its coroutine is done, and m_state of its promise; how
-- often it was created and destroyed; and m_coroutine of each task object, nullptr also for one that
-- does not exist.
pub record Heap : Type 0 where
  pub live : Handle → Bool
  pub done : Handle → Bool
  pub state : Handle → CoroState
  pub created : Handle → ℕ
  pub destroyed : Handle → ℕ
  pub coroutine : Ptr → Handle

-- `handle.destroy()`
abbrev pub destroy_frame : Handle → Heap → Heap
destroy_frame h s = record s {
  live = update s.live h false;
  destroyed = update s.destroyed h (s.destroyed h + 1);
}

-- The frame is allocated, and get_return_object makes the task t.
unfoldable pub get_return_object : Ptr → Handle → Heap → Heap
get_return_object t h s = record s {
  live = update s.live h true;
  done = update s.done h false;
  state = update s.state h normal;
  created = update s.created h (s.created h + 1);
  coroutine = update s.coroutine t h;
}

-- `explicit task(coroutine_handle)`
unfoldable pub construct : Ptr → Handle → Heap → Heap
construct t h s = record s { coroutine = update s.coroutine t h }

-- `handle() &`
unfoldable pub handle_of : Ptr → Heap → Handle
handle_of t s = s.coroutine t

-- `std::exchange(other.m_coroutine, nullptr)` into t.
abbrev pub take_from : Ptr → Ptr → Heap → Heap
take_from t other s = record s {
  coroutine = update (update s.coroutine other null) t (s.coroutine other);
}

-- `task(task&& other)`
unfoldable pub move_construct : Ptr → (other : Ptr) → Heap → Heap
move_construct t other s = take_from t other s

-- `operator=(task&& other)`
unfoldable pub move_assign : Ptr → (other : Ptr) → Heap → Heap
move_assign t other s =
    if other == t
    then s
    else take_from t other (if s.coroutine t == null then s else destroy_frame (s.coroutine t) s)

-- `destroy`, and whether there was a frame.
unfoldable pub destroy : Ptr → Heap → Bool × Heap
destroy t s =
    if s.coroutine t == null
    then (false, s)
    else (true, record (destroy_frame (s.coroutine t) s) { coroutine = update s.coroutine t null })

-- `~task`, after which the object does not exist.
unfoldable pub destruct : Ptr → Heap → Heap
destruct t s =
    if s.coroutine t == null
    then s
    else record (destroy_frame (s.coroutine t) s) { coroutine = update s.coroutine t null }

-- `detach`; none where the assert fails.
unfoldable pub detach_task : Ptr → Heap → Option Heap
detach_task t s =
    if s.coroutine t == null
    then none
    else some (record s {
      state = update s.state (s.coroutine t) detach;
      coroutine = update s.coroutine t null;
    })

-- `handle() &&`
unfoldable pub release : Ptr → Heap → Handle × Heap
release t s = (s.coroutine t, record s { coroutine = update s.coroutine t null })

-- `clean`
unfoldable pub clean : Handle → Heap → Heap
clean h s = if is_detach (s.state h) then destroy_frame h s else s
