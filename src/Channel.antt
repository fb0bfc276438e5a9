-- ===== src/Channel.antt =====
-- include/coro/comp/channel.hpp. The three `channel` templates differ in where they keep their
-- values; `Store` is what they share, and `send`, `recv` and `close` are written over it.
pub mod Window
pub mod Ring
pub mod Masked
pub mod Slot
pub mod Spec
mod Branches
pub mod Refine
pub mod System
pub mod Waiting
pub mod Quiet
pub mod Missed
mod Tests
use sheepcoro.Base.{
  ℕ, ◌≡◌, Bool, true, false, Option, none, some, List, [], ◌∷◌, ◌++◌, not, ◌||◌, ◌&&◌, leb,
  if◌then◌else◌,
}

abbrev pub complete_close : ℕ
complete_close = 0

abbrev pub part_close : ℕ
part_close = 1

abbrev pub no_close : ℕ
no_close = 2

-- The tests and the accesses that a channel makes on its own values.
pub record Store (A : Type 0) : Type 1 where
  pub State : Type 0
  pub empty : State → Bool
  pub full : State → Bool
  pub put : A → State → State
  pub take : State → Option A × State

-- The calls on the two condition variables, oldest first.
pub data Notice : Type 0 where
  one_producer one_consumer all_producers all_consumers : Notice

-- What a call comes to: it returns, or it waits on its condition variable.
pub data Outcome (R : Type 0) : Type 0 where
  returns : R → Outcome R
  waits : Outcome R

module _ {A : Type 0} (st : Store A) where
  open st use {State, empty, full, put, take}

  pub record Channel : Type 0 where
    pub values : State
    pub close_state : ℕ
    pub notices : List Notice

  abbrev pub part_closed : Channel → Bool
  part_closed c = leb c.close_state part_close

  abbrev pub complete_closed : Channel → Bool
  complete_closed c = leb c.close_state complete_close

  -- `channel_base::close`
  unfoldable pub close : Channel → Channel
  close c = record c {
    close_state = part_close;
    notices = c.notices ++ all_producers ∷ all_consumers ∷ [];
  }

  -- The predicate that `send` waits for.
  abbrev pub send_ready : Channel → Bool
  send_ready c = not (full c.values) || part_closed c

  -- `send` once its wait is over, under the mutex.
  unfoldable pub send_locked : A → Channel → Bool × Channel
  send_locked v c =
      if part_closed c
      then (false, c)
      else (true, record c { values = put v c.values; notices = c.notices ++ one_consumer ∷ [] })

  -- `send`, run with no other coroutine in between.
  unfoldable pub send : A → Channel → Outcome Bool × Channel
  unfolding send_locked
  send v c =
      if part_closed c
      then (returns false, c)
      else if send_ready c
      then (let (sent, c') = send_locked v c in (returns sent, c'))
      else (waits, c)

  -- The predicate that `recv` waits for.
  abbrev pub recv_ready : Channel → Bool
  recv_ready c = not (empty c.values) || part_closed c

  -- `recv` once its wait is over, under the mutex.
  unfoldable pub recv_locked : Channel → Option A × Channel
  recv_locked c =
      if empty c.values && part_closed c
      then (none, record c { close_state = complete_close })
      else (let (p, s) = take c.values in
          (p, record c { values = s; notices = c.notices ++ one_producer ∷ [] }))

  -- `recv`, run with no other coroutine in between.
  unfoldable pub recv : Channel → Outcome (Option A) × Channel
  unfolding recv_locked
  recv c =
      if complete_closed c
      then (returns none, c)
      else if recv_ready c
      then (let (p, c') = recv_locked c in (returns p, c'))
      else (waits, c)
