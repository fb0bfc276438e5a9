-- ===== src/WaitGroup.antt =====
-- include/coro/comp/wait_group.hpp and src/comp/wait_group.cpp: the state of `wait_group` and each
-- atomic access of its operations.
pub mod System
pub mod Safety
mod Tests
use sheepcoro.Base.{
  ℕ, zero, suc, ◌+◌, ◌-◌, ◌%◌, ◌^◌, Bool, true, false, Option, none, some, ◌==◌, if◌then◌else◌,
}
use sheepcoro.Awaiters.{
  Ptr, null, Awaiters, set_next, register_wait, unregister_wait, submit_task, compare_exchange,
}

-- `count` is the bit pattern of the int32_t m_count.
pub record WaitGroup : Type 0 where
  pub count : ℕ
  pub state : Ptr
  pub awaiters : Awaiters
  pub open awaiters use *

-- The constructor.
abbrev pub wait_group : (count : ℕ) → Awaiters → WaitGroup
wait_group count h = record { count = count; state = null; awaiters = h }

-- `awaiter::await_suspend` before its loop.
pub await_suspend : Ptr → WaitGroup → WaitGroup
unfolding register_wait
await_suspend p g = record g { awaiters = register_wait p 1 g.awaiters }

pub await_resume : Ptr → WaitGroup → WaitGroup
unfolding unregister_wait
await_resume p g = record g { awaiters = unregister_wait p 1 g.awaiters }

-- A round of the loop of `await_suspend`: the test of the count, the load of the head with the
-- write of m_next, and the compare-exchange.
pub count_is_zero : WaitGroup → Bool
count_is_zero g = g.count == 0

pub load_head : Ptr → WaitGroup → Ptr × WaitGroup
unfolding set_next
load_head p g = (g.state, record g { awaiters = set_next p g.state g.awaiters })

pub push_awaiter : Ptr → (head : Ptr) → WaitGroup → Bool × WaitGroup
push_awaiter p head g =
    let (won, s) = compare_exchange g.state head p in (won, record g { state = s })

-- `add`
pub add : ℕ → WaitGroup → WaitGroup
add cnt g = record g { count = (g.count + cnt) % 2 ^ 32 }

-- The decrement of `done`, and whether it was the last.
pub count_down : WaitGroup → Bool × WaitGroup
count_down g = (g.count == 1, record g { count = (g.count + 2 ^ 32 - 1) % 2 ^ 32 })

-- The exchange of `done`.
pub take_awaiters : WaitGroup → Ptr × WaitGroup
take_awaiters g = (g.state, record g { state = null })

-- The loop of `done`; `none` means that the fuel ran out.
pub resume_awaiters : ℕ → Ptr → Awaiters → Option Awaiters
unfolding submit_task
resume_awaiters zero head h = if head == null then some h else none
resume_awaiters (suc fuel) head h =
    let h' = submit_task head h in
    let rest = resume_awaiters fuel (h'.next head) h' in if head == null then some h else rest

-- `done`, run with no other thread in between.
pub done : ℕ → WaitGroup → Option WaitGroup
unfolding count_down take_awaiters resume_awaiters
done fuel g =
    let (last, g') = count_down g in
    if last
    then (let (head, g'') = take_awaiters g' in
        elim (resume_awaiters fuel head g''.awaiters) [
          | none ↦ none
          | some h ↦ some (record g'' { awaiters = h })
        ])
    else some g'
