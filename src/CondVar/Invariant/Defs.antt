-- ===== src/CondVar/Invariant/Defs.antt =====
-- The invariant of the coroutines over a mutex and a condition variable.
use sheepcoro.Base.{ℕ, ◌+◌, ◌≤◌, ◌≡◌, Bool, true, false, Option, none, some, List, [], ◌==◌, count}
use sheepcoro.Awaiters.{Ptr}
use sheepcoro.CondVar.List.{IsList}
use sheepcoro.CondVar.System.{
  Pc, locking, given, owner, failed, leaving, waiting, notified, System, is_none, holds_now,
}

-- The coroutine stands in a list.
abbrev pub waits : Pc → ℕ
waits locking = 1
waits leaving = 1
waits waiting = 1
waits _ = 0

-- The coroutine holds the mutex.
abbrev pub has : Pc → Bool
has given = true
has owner = true
has failed = true
has leaving = true
has notified = true
has _ = false

abbrev pub in_wait : Pc → Bool
in_wait locking = true
in_wait given = true
in_wait failed = true
in_wait leaving = true
in_wait waiting = true
in_wait notified = true
in_wait _ = false

-- The coroutine has found its predicate false and still holds the mutex.
abbrev pub tested : Pc → Bool
tested failed = true
tested leaving = true
tested _ = false

abbrev pub is_owner : Option Ptr → Ptr → Bool
is_owner none j = false
is_owner (some i) j = i == j

module _ {S : Type 0} (cond : Ptr → Option (S → Bool)) where
  -- w is the list of the condition variable.
  pub record Inv (w : List Ptr) (s : System S) : Type 0 where
    pub list : IsList w s.cv
    pub located : (j : Ptr) → count j w + count j s.called + count j s.mutex.queue ≡ waits (s.pc j)
    pub plain : (j : Ptr) → s.pc j ≡ locking → count j w + count j s.called ≡ 0
    pub holder : (j : Ptr) → has (s.pc j) ≡ is_owner s.mutex.holder j
    pub free : is_none s.mutex.holder ≡ true → s.mutex.queue ≡ []
    pub kept : (j : Ptr) → tested (s.pc j) ≡ true → holds_now (cond j) s.shared ≡ false
    pub address : (j : Ptr) → in_wait (s.pc j) ≡ true → 2 ≤ j
