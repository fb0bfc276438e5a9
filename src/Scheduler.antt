-- ===== src/Scheduler.antt =====
-- include/coro/scheduler.hpp, src/scheduler.cpp and include/coro/dispatcher.hpp: the flags of the
-- contexts and the stop token, one function for each atomic access.
pub mod Sums
pub mod System
pub mod Invariant
pub mod RoundRobin
pub mod Safety
mod Tests
use sheepcoro.Base.{
  ℕ, zero, suc, ◌+◌, ◌-◌, ◌%◌, ◌^◌, Bool, true, false, List, [], ◌∷◌, ◌++◌, ◌==◌, ltb,
  if◌then◌else◌,
}
use sheepcoro.Awaiters.{update, add_size}

-- dispatcher<dispatch_strategy::round_robin>
pub record Dispatcher : Type 0 where
  pub ctx_cnt : ℕ
  pub cur : ℕ

unfoldable pub init : ℕ → Dispatcher
init ctx_cnt = record { ctx_cnt = ctx_cnt; cur = 0 }

unfoldable pub dispatch : Dispatcher → ℕ × Dispatcher
dispatch d = (d.cur % d.ctx_cnt, record d { cur = add_size d.cur 1 })

-- `stop_flag` is m_ctx_stop_flag, `stop_token` the bit pattern of the int m_stop_token; `given`
-- lists the contexts that were given a task and the tasks, and `notified` says which contexts
-- notify_stop was called for.
pub record Scheduler : Type 0 where
  pub ctx_cnt : ℕ
  pub dispatcher : Dispatcher
  pub stop_flag : ℕ → ℕ
  pub stop_token : ℕ
  pub given : List (ℕ × ℕ)
  pub notified : ℕ → Bool

unfoldable pub init_impl : ℕ → Scheduler
unfolding init
init_impl ctx_cnt = record {
  ctx_cnt = ctx_cnt;
  dispatcher = init ctx_cnt;
  stop_flag = λ i. if ltb i ctx_cnt then 1 else 0;
  stop_token = ctx_cnt % 2 ^ 32;
  given = [];
  notified = λ _. false;
}

-- `v | 1`
abbrev pub or_one : ℕ → ℕ
or_one v = if v % 2 == 0 then v + 1 else v

-- The accesses of `submit_task_impl`.
unfoldable pub choose_ctx : Scheduler → ℕ × Scheduler
unfolding dispatch
choose_ctx s = let (ctx_id, d) = dispatch s.dispatcher in (ctx_id, record s { dispatcher = d })

unfoldable pub set_flag : (ctx_id : ℕ) → Scheduler → ℕ × Scheduler
set_flag ctx_id s = (
  s.stop_flag ctx_id,
  record s { stop_flag = update s.stop_flag ctx_id (or_one (s.stop_flag ctx_id)) },
)

unfoldable pub add_token : (flag : ℕ) → Scheduler → Scheduler
add_token flag s = record s { stop_token = (s.stop_token + 1 + 2 ^ 32 - flag) % 2 ^ 32 }

unfoldable pub give_task : (ctx_id handle : ℕ) → Scheduler → Scheduler
give_task ctx_id handle s = record s { given = s.given ++ (ctx_id, handle) ∷ [] }

-- The loop of `stop_impl`, from context i on.
unfoldable pub notify_from : (rounds i : ℕ) → (ℕ → Bool) → ℕ → Bool
notify_from zero i f = f
notify_from (suc n) i f = notify_from n (suc i) (update f i true)

unfoldable pub stop_impl : Scheduler → Scheduler
unfolding notify_from
stop_impl s = record s { notified = notify_from s.ctx_cnt 0 s.notified }

-- The accesses of the callback that `start_impl` sets; the second says whether it stops the
-- scheduler.
unfoldable pub clear_flag : (i : ℕ) → Scheduler → ℕ × Scheduler
clear_flag i s = (s.stop_flag i, record s { stop_flag = update s.stop_flag i 0 })

unfoldable pub sub_token : (cnt : ℕ) → Scheduler → Bool × Scheduler
unfolding stop_impl
sub_token cnt s =
    let s' = record s { stop_token = (s.stop_token + 2 ^ 32 - cnt) % 2 ^ 32 } in
    (s.stop_token == cnt, if s.stop_token == cnt then stop_impl s' else s')
