-- ===== src/CondVar.antt =====
-- include/coro/comp/condition_variable.hpp and src/comp/condition_variable.cpp: the list of a
-- condition variable, one function for each section under its spinlock, and the walk of notify_all.
pub mod List
pub mod System
pub mod Invariant
pub mod Safety
pub mod Order
pub mod Count
mod Tests
use sheepcoro.Base.{ℕ, zero, suc, Bool, true, false, Option, none, some, ◌==◌, if◌then◌else◌}
use sheepcoro.Awaiters.{Ptr, null, update}

-- `next` is m_next of every awaiter.
pub record CondVar : Type 0 where
  pub head : Ptr
  pub tail : Ptr
  pub next : Ptr → Ptr

abbrev pub condition_variable : (Ptr → Ptr) → CondVar
condition_variable next = record { head = null; tail = null; next = next }

-- `cv_awaiter::register_cv`
unfoldable pub register_cv : Ptr → CondVar → CondVar
register_cv p c =
    let next' = update c.next p null in
    if c.tail == null
    then record { head = p; tail = p; next = next' }
    else record { head = c.head; tail = p; next = update next' c.tail p }

-- The section of `notify_one`: the awaiter to wake, or null.
unfoldable pub pop_head : CondVar → Ptr × CondVar
pop_head c = if c.head == null then (null, c) else (
  c.head,
  record c { head = c.next c.head; tail = if c.next c.head == null then null else c.tail },
)

-- The section of `notify_all`.
unfoldable pub take_all : CondVar → Ptr × CondVar
take_all c = (c.head, record c { head = null; tail = null })

-- The walk of `notify_all`, where `wake` is wake_up with the state that it changes; `none` means
-- that the fuel ran out.
unfoldable pub wake_each :
    {S : Type 0} (next_of : S → Ptr → Ptr) (wake : Ptr → S → S)
    → (fuel : ℕ) → (cur_head : Ptr) → S
    → Option S
wake_each next_of wake zero cur_head s = if cur_head == null then some s else none
wake_each next_of wake (suc fuel) cur_head s =
    let nxt = next_of s cur_head in
    let rest = wake_each next_of wake fuel nxt (wake cur_head s) in
    if cur_head == null then some s else rest
