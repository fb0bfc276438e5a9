-- ===== src/Call.antt =====
-- include/coro/task.hpp: how a coroutine awaits a task, where the result goes, and what resumes the
-- coroutine again; exec_task of src/engine.cpp.
pub mod Promises
pub mod Moves
pub mod Returns
pub mod Dangling
mod Tests
use sheepcoro.Base.{
  ℕ, zero, suc, ◌+◌, Bool, true, false, ◌&&◌, Option, none, some, ◌==◌, if◌then◌else◌,
}
use sheepcoro.Awaiters.{Ptr, null, update}
use sheepcoro.Container.{Result}
use sheepcoro.Call.Promises.{Promise}

-- What is left of a coroutine's body, as the co_awaits it makes: of a task that it calls, whose result
-- it goes on with, or of an awaiter that suspends it until the engine resumes its handle.
pub data Body (A X : Type 0) : Type 0 where
  co_return : A → Body A X
  throws : X → Body A X
  co_await : Body A X → (Result A X → Body A X) → Body A X
  suspends : Body A X → Body A X

-- Where a coroutine stands: it goes on with a body, it is at `await_resume` of a task with a frame,
-- or it is in its final suspend.
pub data Point (A X : Type 0) : Type 0 where
  runs : Body A X → Point A X
  awaits : Ptr → (Result A X → Body A X) → Point A X
  ended : Point A X

pub record Frame (A X P : Type 0) : Type 0 where
  pub point : Point A X
  pub promise : P
  pub continuation : Ptr

-- One thread and the frames. `control` is the coroutine that runs, null when `resume` has returned;
-- `suspended` is a coroutine that the engine is to resume, or null; frames are allocated at `next`.
pub record Machine (A X P : Type 0) : Type 0 where
  pub control : Ptr
  pub suspended : Ptr
  pub live : Ptr → Bool
  pub frames : Ptr → Frame A X P
  pub next : Ptr

module _ {A X P : Type 0} (pr : Promise A X P) where
  abbrev pub new_frame : Body A X → Frame A X P
  new_frame b = record { point = runs b; promise = pr.empty; continuation = null }

  -- A call of a coroutine: initial_suspend suspends it before its body.
  unfoldable pub create : Body A X → Machine A X P → Machine A X P
  create b m = record m {
    live = update m.live m.next true;
    frames = update m.frames m.next (new_frame b);
    next = m.next + 1;
  }

abbrev pub is_ended : {A X : Type 0} → Point A X → Bool
is_ended ended = true
is_ended _ = false

module _ {A X P : Type 0} where
  -- `awaitable_base::await_ready`
  abbrev pub await_ready : Ptr → Machine A X P → Bool
  await_ready c m = if c == null then true else is_ended (m.frames c).point

  -- `awaitable_base::await_suspend`: the awaited coroutine runs next.
  unfoldable pub await_suspend : (awaiting : Ptr) → (c : Ptr) → Machine A X P → Machine A X P
  await_suspend awaiting c m = record m {
    control = c;
    frames = update m.frames c (record (m.frames c) { continuation = awaiting });
  }

  abbrev pub goto : Ptr → Point A X → Machine A X P → Machine A X P
  goto h p m = record m { frames = update m.frames h (record (m.frames h) { point = p }) }

  -- `final_suspend`, with `final_awaitable::await_suspend`; null is the noop coroutine.
  unfoldable pub final_suspend : Ptr → (P → P) → Machine A X P → Machine A X P
  final_suspend h write m = record m {
    control = (m.frames h).continuation;
    frames =
        update m.frames h
          (record (m.frames h) { point = ended; promise = write (m.frames h).promise });
  }

  -- `~task` of the task that was awaited.
  abbrev pub destroy : Ptr → Machine A X P → Machine A X P
  destroy c m = record m { live = update m.live c false }

module _ {A X P : Type 0} (pr : Promise A X P) where
  -- co_await of a task that is called there.
  unfoldable pub co_await_task :
      Ptr → Body A X → (Result A X → Body A X) → Machine A X P → Machine A X P
  unfolding create await_suspend
  co_await_task h b k m =
      let c = m.next in
      let m' = goto h (awaits c k) (create pr b m) in
      if await_ready c m' then m' else await_suspend h c m'

  -- What the coroutine h does next; none where it reads a frame that does not exist, or is resumed
  -- after its end.
  unfoldable pub move : Ptr → Point A X → Machine A X P → Option (Machine A X P)
  unfolding final_suspend co_await_task
  move h (runs (co_return v)) m = some (final_suspend h (pr.return_value v) m)
  move h (runs (throws x)) m = some (final_suspend h (pr.set_exception x) m)
  move h (runs (co_await b k)) m = some (co_await_task h b k m)
  move h (runs (suspends b)) m = some (record (goto h (runs b) m) { control = null; suspended = h })
  move h (awaits c k) m =
      if m.live c
      then some (destroy c (goto h (runs (k (pr.result (m.frames c).promise))) m))
      else none
  move h ended m = none

  unfoldable pub step : Machine A X P → Option (Machine A X P)
  unfolding move
  step m =
      let m' = move m.control (m.frames m.control).point m in if m.live m.control then m' else none

  -- `handle.resume()`, once control is at the handle.
  unfoldable pub resume : (fuel : ℕ) → Machine A X P → Option (Machine A X P)
  unfolding step
  resume zero m = if m.control == null then some m else none
  resume (suc fuel) m =
      let rest : Option (Machine A X P) = elim (step m) [
        | none ↦ none
        | some m' ↦ resume fuel m'
      ] in
      if m.control == null then some m else rest

  -- `exec_task`: the resumption, and what `handle.done()` then says; none also where the frame of the
  -- handle does not exist any more.
  unfoldable pub exec_task : (fuel : ℕ) → Ptr → Machine A X P → Option (Bool × Machine A X P)
  unfolding resume
  exec_task fuel h m = elim (resume fuel (record m { control = h })) [
    | none ↦ none
    | some m' ↦ if m'.live h then some (is_ended (m'.frames h).point, m') else none
  ]

  -- The thread until nothing is left to resume, where the suspended coroutine is resumed each time:
  -- `exec_task` for the first `handle` and for each later one. After each resumption `handle.done()`
  -- reads the frame, and none is also for one that does not exist any more. The task is not
  -- detached, so that `clean` leaves a frame that is done.
  unfoldable pub run : (fuel : ℕ) → (handle : Ptr) → Machine A X P → Option (Machine A X P)
  unfolding step
  run zero handle m =
      if (m.control == null) && (m.live handle && (m.suspended == null)) then some m else none
  run (suc fuel) handle m =
      let next_task = run fuel m.suspended (record m { control = m.suspended; suspended = null }) in
      let rest : Option (Machine A X P) = elim (step m) [
        | none ↦ none
        | some m' ↦ run fuel handle m'
      ] in
      if m.control == null
      then (if m.live handle then (if m.suspended == null then some m else next_task) else none)
      else rest
