-- ===== src/Event.antt =====
-- include/coro/comp/event.hpp and src/comp/event.cpp: the state of `event_base` and each atomic
-- access of its operations.
pub mod System
pub mod Invariant
pub mod Linked
pub mod Safety
pub mod Valued
pub mod Late
pub mod Given
mod Tests
use sheepcoro.Base.{ℕ, zero, suc, Bool, true, false, Option, none, some, ◌==◌, if◌then◌else◌}
use sheepcoro.Awaiters.{
  Ptr, null, Awaiters, set_next, register_wait, unregister_wait, submit_task, compare_exchange,
}

-- `this`, which is the address of no awaiter.
abbrev pub this : Ptr
this = 1

pub record Event : Type 0 where
  pub state : Ptr
  pub awaiters : Awaiters
  pub open awaiters use *

-- The constructor.
abbrev pub event_base : (initial_set : Bool) → Awaiters → Event
event_base initial_set h = record { state = if initial_set then this else null; awaiters = h }

unfoldable pub is_set : Event → Bool
is_set e = e.state == this

-- `awaiter_base::await_ready`
unfoldable pub await_ready : Ptr → Event → Bool × Event
unfolding register_wait is_set
await_ready p e =
    let e' : Event = record e { awaiters = register_wait p 1 e.awaiters } in (is_set e', e')

-- `awaiter_base::await_resume`
unfoldable pub await_resume : Ptr → Event → Event
unfolding unregister_wait
await_resume p e = record e { awaiters = unregister_wait p 1 e.awaiters }

-- The body of the loop of `register_awaiter` up to its compare-exchange. `none`: the event is set,
-- and `register_awaiter` returns false.
unfoldable pub register_load : Ptr → Event → Option Ptr × Event
unfolding set_next
register_load p e =
    if e.state == this
    then (none, record e { awaiters = set_next p null e.awaiters })
    else (some e.state, record e { awaiters = set_next p e.state e.awaiters })

-- The compare-exchange of `register_awaiter` against the loaded value.
unfoldable pub register_cas : Ptr → (old_value : Ptr) → Event → Bool × Event
register_cas p old_value e =
    let (won, s) = compare_exchange e.state old_value p in (won, record e { state = s })

-- `register_awaiter`, run with no other thread in between.
unfoldable pub register_awaiter : Ptr → Event → Bool × Event
unfolding register_load register_cas
register_awaiter p e =
    let (old, e') = register_load p e in
    elim old [ none ↦ (false, e') | some v ↦ register_cas p v e' ]

-- The exchange of `set_state`: the old word, and the event after it.
unfoldable pub set_exchange : Event → Ptr × Event
set_exchange e = (e.state, record e { state = this })

-- `resume_all_awaiter`; `none` means that the fuel ran out.
unfoldable pub resume_all_awaiter : ℕ → Ptr → Awaiters → Option Awaiters
unfolding submit_task
resume_all_awaiter zero waiter h = if waiter == null then some h else none
resume_all_awaiter (suc fuel) waiter h =
    let rest = resume_all_awaiter fuel (h.next waiter) (submit_task waiter h) in
    if waiter == null then some h else rest

-- `set_state`, run with no other thread in between.
unfoldable pub set_state : ℕ → Event → Option Event
unfolding set_exchange resume_all_awaiter
set_state fuel e =
    let (flag, e') = set_exchange e in
    if flag == this then some e' else elim (resume_all_awaiter fuel flag e'.awaiters) [
      | none ↦ none
      | some h ↦ some (record e' { awaiters = h })
    ]
