-- ===== src/Engine.antt =====
-- include/coro/engine.hpp and src/engine.cpp, and `process_work` of src/context.cpp, as one
-- thread runs them. The task queue, the coroutines and io_uring are parameters.
pub mod Ledger
pub mod Work
pub mod Poll
pub mod Loop
pub mod OnePlace
mod Tests
use Prim.Native.Nat.{bit_and}
use sheepcoro.Base.{
  ℕ, zero, suc, ◌+◌, ◌-◌, ◌%◌, ◌^◌, ◌≡◌, ◌<◌, ◌≢◌, Bool, true, false, not, Option, none, some, List,
  [], ◌∷◌, ◌++◌, ◌==◌, ltb, leb, if◌then◌else◌, length,
}
use sheepcoro.Awaiters.{add_size, sub_size}

-- The address of a coroutine.
abbrev pub Handle : Type 0
Handle = ℕ

-- The calls of the atomic queue; `pop` is none where it would wait for a push.
pub record TaskQueue : Type 1 where
  pub State : Type 0
  pub try_push : Handle → State → Bool × State
  pub pop : State → Option (Handle × State)
  pub was_size : State → ℕ
  pub was_empty : State → Bool

-- What a coroutine or a callback does to the engine before it suspends or returns.
pub data Action : Type 0 where
  submits : Handle → Action
  adds_io : Action

-- What the coroutines do: `resume` gives the actions and whether the coroutine is then done, and
-- `is_detached` the state of its promise; `callback` is what a completion's callback does.
pub record Program : Type 1 where
  pub State : Type 0
  pub resume : Handle → State → List Action × Bool × State
  pub is_detached : Handle → State → Bool
  pub callback : (cqe : ℕ) → State → List Action × State

-- config::kMaxRecursiveDepth
abbrev pub max_recursive_depth : ℕ
max_recursive_depth = 4096

-- engine::task_flag
abbrev pub task_flag : ℕ
task_flag = 2 ^ 44

-- engine::cqe_mask and wake_by_cqe
abbrev pub cqe_mask : ℕ
cqe_mask = 2 ^ 24 - 1

abbrev pub wake_by_cqe : ℕ → Bool
wake_by_cqe val = ltb 0 (bit_and val cqe_mask)

module _ (q : TaskQueue) (p : Program) where
  -- `working` is is_in_working_state; `eventfd` what was written to it; the lists record the handles
  -- submitted, resumed, discarded and destroyed so far.
  pub record Engine : Type 0 where
    pub task_queue : q.State
    pub num_io_wait_submit : ℕ
    pub num_io_running : ℕ
    pub recursive_depth : ℕ
    pub working : Bool
    pub eventfd : ℕ
    pub coroutines : p.State
    pub submitted : List Handle
    pub resumed : List Handle
    pub discarded : List Handle
    pub destroyed : List Handle

  unfoldable pub wake_up : ℕ → Engine → Engine
  wake_up val e = record e { eventfd = e.eventfd + val }

  unfoldable pub add_io_submit : Engine → Engine
  add_io_submit e = record e { num_io_wait_submit = add_size e.num_io_wait_submit 1 }

  -- The actions of one coroutine or callback, where `submit` is `submit_task`.
  unfoldable pub perform : (Handle → Engine → Option Engine) → List Action → Engine → Option Engine
  unfolding add_io_submit
  perform submit [] e = some e
  perform submit (submits h ∷ acts) e = elim (submit h e) [
    | none ↦ none
    | some e' ↦ perform submit acts e'
  ]
  perform submit (adds_io ∷ acts) e = perform submit acts (add_io_submit e)

  -- `clean`
  unfoldable pub clean : Handle → Engine → Engine
  clean h e =
      if p.is_detached h e.coroutines then record e { destroyed = e.destroyed ++ h ∷ [] } else e

  unfoldable pub exec_with : (Handle → Engine → Option Engine) → Handle → Engine → Option Engine
  unfolding perform clean
  exec_with submit h e =
      let (acts, done, s) = p.resume h e.coroutines in
      let e' : Engine = record e { coroutines = s; resumed = e.resumed ++ h ∷ [] } in
      elim (perform submit acts e') [
        | none ↦ none
        | some e'' ↦ some (if done then clean h e'' else e'')
      ]

  abbrev pub discard : Handle → Engine → Engine
  discard h e = record e { discarded = e.discarded ++ h ∷ [] }

  abbrev pub deeper : Engine → Engine
  deeper e = record e { recursive_depth = e.recursive_depth + 1 }

  abbrev pub back_up : Engine → Engine
  back_up e = record e { recursive_depth = e.recursive_depth - 1 }

  -- The try_push of `submit_task`, with the wake_up when there was room.
  unfoldable pub push_task : Handle → Engine → Bool × Engine
  unfolding wake_up
  push_task h e =
      let (pushed, t) = q.try_push h e.task_queue in
      let e' : Engine = record e { task_queue = t; submitted = e.submitted ++ h ∷ [] } in
      (pushed, if pushed then wake_up task_flag e' else e')

  -- Whether `submit_task` runs a task for which there was no room.
  abbrev pub runs_inline : Engine → Bool
  runs_inline e = if e.working then not (leb max_recursive_depth e.recursive_depth) else false

  -- `submit_task` on fuel, a round for each level of recursion; `none` means that it ran out.
  unfoldable pub submit_task : (fuel : ℕ) → Handle → Engine → Option Engine
  unfolding push_task exec_with
  submit_task zero h e =
      let (pushed, e') = push_task h e in
      elim pushed [
        | true ↦ some e'
        | false ↦ elim (runs_inline e') [ true ↦ none | false ↦ some (discard h e') ]
      ]
  submit_task (suc fuel) h e =
      let (pushed, e') = push_task h e in
      elim pushed [
        | true ↦ some e'
        | false ↦ elim (runs_inline e') [
          | true ↦ elim (exec_with (submit_task fuel) h (deeper e')) [
            | none ↦ none
            | some e'' ↦ some (back_up e'')
          ]
          | false ↦ some (discard h e')
        ]
      ]

  unfoldable pub exec_task : (fuel : ℕ) → Handle → Engine → Option Engine
  unfolding exec_with submit_task
  exec_task fuel h e = exec_with (submit_task fuel) h e

  -- `exec_one_task`; `none` also where `schedule` would wait for a task.
  unfoldable pub exec_one_task : (fuel : ℕ) → Engine → Option Engine
  unfolding exec_task
  exec_one_task fuel e = elim (q.pop e.task_queue) [
    | none ↦ none
    | some (h, t) ↦ exec_task fuel h (record e { task_queue = t })
  ]

  -- The loop of context::process_work.
  unfoldable pub exec_tasks : (fuel rounds : ℕ) → Engine → Option Engine
  unfolding exec_one_task
  exec_tasks fuel zero e = some e
  exec_tasks fuel (suc n) e = elim (exec_one_task fuel e) [
    | none ↦ none
    | some e' ↦ exec_tasks fuel n e'
  ]

  unfoldable pub process_work : (fuel : ℕ) → Engine → Option Engine
  unfolding exec_tasks
  process_work fuel e = exec_tasks fuel (q.was_size e.task_queue) e

  unfoldable pub do_io_submit : Engine → Engine
  do_io_submit e =
      if ltb 0 e.num_io_wait_submit
      then record e {
        num_io_running = add_size e.num_io_running e.num_io_wait_submit;
        num_io_wait_submit = 0;
      }
      else e

  -- `handle_cqe_entry`
  unfoldable pub handle_cqe_entry : (fuel cqe : ℕ) → Engine → Option Engine
  unfolding perform submit_task
  handle_cqe_entry fuel cqe e =
      let (acts, s) = p.callback cqe e.coroutines in
      perform (submit_task fuel) acts (record e { coroutines = s })

  unfoldable pub handle_cqes : (fuel : ℕ) → List ℕ → Engine → Option Engine
  unfolding handle_cqe_entry
  handle_cqes fuel [] e = some e
  handle_cqes fuel (cqe ∷ cqes) e = elim (handle_cqe_entry fuel cqe e) [
    | none ↦ none
    | some e' ↦ handle_cqes fuel cqes e'
  ]

  -- `poll_submit`, where the read of the eventfd gives `cnt` and `peek` the completions that
  -- peek_batch_cqe returns for a limit.
  unfoldable pub poll_submit : (fuel cnt : ℕ) → (peek : ℕ → List ℕ) → Engine → Option Engine
  unfolding do_io_submit handle_cqes
  poll_submit fuel cnt peek e =
      let e' : Engine = record (do_io_submit e) { eventfd = 0 } in
      elim (wake_by_cqe cnt) [
        | false ↦ some e'
        | true ↦
            (let cqes = peek e'.num_io_running in
              elim (handle_cqes fuel cqes e') [
                | none ↦ none
                | some e'' ↦
                    some (record e'' { num_io_running = sub_size e''.num_io_running (length cqes) })
              ])
      ]

-- What the task queue keeps: it is a bounded queue of handles.
pub record IsTaskQueue (q : TaskQueue) : Type 0 where
  pub contents : q.State → List Handle
  pub pushed :
      (h : Handle) (t t' : q.State)
      → q.try_push h t ≡ (true, t')
      → contents t' ≡ contents t ++ h ∷ []
  pub refused :
      (h : Handle) (t t' : q.State) → q.try_push h t ≡ (false, t') → contents t' ≡ contents t
  pub popped :
      (t : q.State) (h : Handle) (hs : List Handle)
      → contents t ≡ h ∷ hs
      → (t' : q.State) × (q.pop t ≡ some (h, t')) × (contents t' ≡ hs)
  pub size : (t : q.State) → q.was_size t ≡ length (contents t)
  pub empty : (t : q.State) → q.was_empty t ≡ (length (contents t) == 0)
