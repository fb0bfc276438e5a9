-- ===== src/Mutex.antt =====
-- include/coro/comp/mutex.hpp and src/comp/mutex.cpp: the state of `mutex` and each atomic access
-- of its operations.
pub mod Relink
pub mod System
pub mod Invariant
pub mod Submits
pub mod Refinement
pub mod Safety
mod Tests
use mathlib.Core.Option
use sheepcoro.Base.{ℕ, zero, suc, Bool, true, false, Option, none, some, ◌==◌, if◌then◌else◌}
use sheepcoro.Awaiters.{
  Ptr, null, update, Awaiters, set_next, register_wait, unregister_wait, submit_task,
  compare_exchange,
}

-- `reinterpret_cast<awaiter_ptr>(1)`
abbrev pub nolocked : Ptr
nolocked = 1

abbrev pub locked_no_waiting : Ptr
locked_no_waiting = null

-- `mutex`, with the awaiters that its two lists run through.
pub record Mutex : Type 0 where
  pub state : Ptr
  pub resume_list_head : Ptr
  pub awaiters : Awaiters
  pub open awaiters use *

abbrev pub fresh : Awaiters → Mutex
fresh h = record { state = nolocked; resume_list_head = null; awaiters = h }

-- `mutex_awaiter::await_suspend` up to the call of `register_lock`.
pub await_suspend : Ptr → Mutex → Mutex
unfolding register_wait
await_suspend p m = record m { awaiters = register_wait p 1 m.awaiters }

-- `mutex_awaiter::await_resume`
pub await_resume : Ptr → Mutex → Mutex
unfolding unregister_wait
await_resume p m = record m { awaiters = unregister_wait p 1 m.awaiters }

-- The first half of a round of `register_lock`: the load, and the write of m_next that it decides.
pub register_load : Ptr → Mutex → Mutex
unfolding set_next
register_load p m = record m {
  awaiters = set_next p (if m.state == nolocked then null else m.state) m.awaiters;
}

-- What a round of `register_lock` ends with.
pub data Round : Type 0 where
  locked enqueued again : Round

-- The second half: the compare-exchange against the loaded value `seen`.
pub register_cas : Ptr → (seen : Ptr) → Mutex → Round × Mutex
register_cas p seen m =
    if seen == nolocked
    then (let (won, s) = compare_exchange m.state seen locked_no_waiting in
        (if won then locked else again, record m { state = s }))
    else (let (won, s) = compare_exchange m.state seen p in
        (if won then enqueued else again, record m { state = s }))

-- `mutex::try_lock`
pub try_lock : Mutex → Bool × Mutex
try_lock m =
    let (won, s) = compare_exchange m.state nolocked locked_no_waiting in
    (won, record m { state = s })

-- The do-while of `unlock`: turn the list that starts at `awaiter` round, onto `to_resume`. The
-- result is the links with the new head; `none` means that the fuel ran out.
pub relink : ℕ → (Ptr → Ptr) → (awaiter to_resume : Ptr) → Option ((Ptr → Ptr) × Ptr)
relink zero next awaiter to_resume = none
relink (suc fuel) next awaiter to_resume =
    let temp = next awaiter in
    let next' = update next awaiter to_resume in
    let rest = relink fuel next' temp awaiter in
    if temp == null then some (next', awaiter) else rest

-- The last two lines of `unlock`.
pub resume_first : Ptr → Mutex → Mutex
unfolding submit_task
resume_first to_resume m = record m {
  resume_list_head = m.next to_resume;
  awaiters = submit_task to_resume m.awaiters;
}

-- The compare-exchange of `unlock`, tried when the resume list is empty.
pub unlock_cas : Mutex → Bool × Mutex
unlock_cas m =
    let (won, s) = compare_exchange m.state locked_no_waiting nolocked in
    (won, record m { state = s })

-- `unlock` from its exchange on, with the awaiter that it resumes. `none`: an assert fails, or the
-- fuel runs out.
pub unlock_drain : ℕ → Mutex → Option (Ptr × Mutex)
unfolding relink resume_first
unlock_drain fuel m =
    if m.state == nolocked
    then none
    else if m.state == locked_no_waiting
    then none
    else elim (relink fuel m.next m.state null) [
      | none ↦ none
      | some (next, head) ↦ some (
        head,
        resume_first head
            (record m { state = locked_no_waiting; awaiters = record m.awaiters { next = next } }),
      )
    ]

-- `mutex::unlock`, run with no other thread in between.
pub unlock : ℕ → Mutex → Option Mutex
unfolding unlock_cas unlock_drain resume_first
unlock fuel m =
    if m.state == nolocked
    then none
    else if m.resume_list_head == null
    then (let (won, m') = unlock_cas m in
        if won then some m' else Option.map (λ r. r.1) (unlock_drain fuel m'))
    else some (resume_first m.resume_list_head m)
