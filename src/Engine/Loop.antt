-- ===== src/Engine/Loop.antt =====
-- `context::run` of src/context.cpp for a context without a scheduler, whose thread is the only one
-- that gives it tasks.
pub mod Sound
use sheepcoro.Base.{
  ℕ, zero, suc, ◌+◌, ◌≤◌, ◌<◌, ◌≡◌, refl, sym, ap, subst, ◌∙◌, Bool, true, false, not, Option, none,
  some, List, [], ◌∷◌, ◌++◌, arith, ◌==◌, ltb, ◌||◌, if◌then◌else◌, length, Bool-cases, inl, inr,
}
use sheepcoro.Awaiters.{sub_size}
use sheepcoro.Engine.{
  Handle, TaskQueue, IsTaskQueue, Program, Engine, max_recursive_depth, wake_by_cqe, process_work,
  do_io_submit, handle_cqes, poll_submit,
}
use sheepcoro.Engine.Ledger.{IsSettled, Settles}
use sheepcoro.Engine.Work.{process_work_lem}
use sheepcoro.Engine.Poll.{handle_cqes_lem}

-- What the thread meets in one turn of the loop: whether somebody else has requested the stop,
-- m_num_wait_task, the count that the eventfd gives, and the completions.
pub record Turn : Type 0 where
  pub stop : Bool
  pub num_wait : ℕ
  pub cnt : ℕ
  pub peek : ℕ → List ℕ

-- io_uring gives no completion when it is asked for none.
abbrev pub Limited : List Turn → Type 0
Limited [] = Unit {0}
Limited (t ∷ ts) = (length (t.peek 0) ≤ 0) × Limited ts

module _ (q : TaskQueue) (p : Program) where
  pub record Context : Type 0 where
    pub engine : Engine q p
    pub stop_requested : Bool

  -- `engine::ready`
  abbrev pub ready : Engine q p → Bool
  ready e = not (q.was_empty e.task_queue)

  -- `empty_wait_task`, with empty_io of the engine.
  abbrev pub empty_wait_task : ℕ → Engine q p → Bool
  empty_wait_task num_wait e =
      if num_wait == 0
      then (if e.num_io_wait_submit == 0 then e.num_io_running == 0 else false)
      else false

  -- The m_stop_cb that `start` sets.
  abbrev pub stop_cb : Context → Context
  stop_cb c = record c { stop_requested = true }

  abbrev pub poll_work : (fuel : ℕ) → Turn → Context → Option Context
  poll_work fuel t c = elim (poll_submit q p fuel t.cnt t.peek c.engine) [
    | none ↦ none
    | some e ↦ some (record c { engine = e })
  ]

  -- The body of the loop of `run`, after process_work.
  abbrev pub after_work : (fuel : ℕ) → Turn → Context → Option Context
  after_work fuel t c =
      if empty_wait_task t.num_wait c.engine
      then (if ready c.engine then some c else poll_work fuel t (stop_cb c))
      else poll_work fuel t c

  unfoldable pub turn : (fuel : ℕ) → Turn → Context → Option Context
  turn fuel t c = elim (process_work q p fuel c.engine) [
    | none ↦ none
    | some e ↦ after_work fuel t (record c { engine = e })
  ]

  -- `run`, for as many turns as the list has.
  unfoldable pub run : (fuel : ℕ) → List Turn → Context → Option Context
  unfolding turn
  run fuel [] c = some c
  run fuel (t ∷ ts) c =
      let rest : Option Context = elim (turn fuel t c) [ none ↦ none | some c' ↦ run fuel ts c' ] in
      if c.stop_requested then some c else if t.stop then some c else rest
