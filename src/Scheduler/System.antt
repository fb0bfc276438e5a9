-- ===== src/Scheduler/System.antt =====
-- Any number of threads that submit tasks and the contexts' threads, over one scheduler: each step
-- is one atomic access of src/scheduler.cpp.
use sheepcoro.Base.{ℕ, ◌<◌, ◌≡◌, Bool}
use sheepcoro.Awaiters.{update}
use sheepcoro.Scheduler.{
  Scheduler, init_impl, choose_ctx, set_flag, add_token, give_task, clear_flag, sub_token,
}

-- A thread in `submit_task_impl`.
pub data Pc : Type 0 where
  idle : Pc
  chosen : (ctx_id : ℕ) → Pc  -- past dispatch
  flagged : (ctx_id flag : ℕ) → Pc  -- past fetch_or, which returned `flag`
  counted : (ctx_id : ℕ) → Pc  -- past fetch_add

-- A context's thread and the callback.
pub data Callback : Type 0 where
  outside : Callback
  cleared : (cnt : ℕ) → Callback  -- past fetch_and, which returned `cnt`

pub record System : Type 0 where
  pub scheduler : Scheduler
  pub open scheduler use *
  pub pc : ℕ → Pc
  pub callback : ℕ → Callback

pub data Step (s : System) : System → Type 0 where
  choose :
      (j ctx_id : ℕ) (t : Scheduler)
      → s.pc j ≡ idle
      → choose_ctx s.scheduler ≡ (ctx_id, t)
      → Step s (record s { scheduler = t; pc = update s.pc j (chosen ctx_id) })
  flag :
      (j ctx_id old : ℕ) (t : Scheduler)
      → s.pc j ≡ chosen ctx_id
      → set_flag ctx_id s.scheduler ≡ (old, t)
      → Step s (record s { scheduler = t; pc = update s.pc j (flagged ctx_id old) })
  count_in :
      (j ctx_id old : ℕ)
      → s.pc j ≡ flagged ctx_id old
      → Step s
          (record s { scheduler = add_token old s.scheduler; pc = update s.pc j (counted ctx_id) })
  give :
      (j ctx_id handle : ℕ)
      → s.pc j ≡ counted ctx_id
      → Step s
          (record s { scheduler = give_task ctx_id handle s.scheduler; pc = update s.pc j idle })
  clear :
      (i cnt : ℕ) (t : Scheduler)
      → i < s.ctx_cnt
      → s.callback i ≡ outside
      → clear_flag i s.scheduler ≡ (cnt, t)
      → Step s (record s { scheduler = t; callback = update s.callback i (cleared cnt) })
  count_out :
      (i cnt : ℕ) (b : Bool) (t : Scheduler)
      → s.callback i ≡ cleared cnt
      → sub_token cnt s.scheduler ≡ (b, t)
      → Step s (record s { scheduler = t; callback = update s.callback i outside })

pub data Reach (ctx_cnt : ℕ) : System → Type 0 where
  start :
      Reach ctx_cnt
        (record { scheduler = init_impl ctx_cnt; pc = λ _. idle; callback = λ _. outside })
  later : {s t : System} → Reach ctx_cnt s → Step s t → Reach ctx_cnt t

-- Any number of steps.
pub data Run (s : System) : System → Type 0 where
  stay : Run s s
  onward : {t u : System} → Run s t → Step t u → Run s u
