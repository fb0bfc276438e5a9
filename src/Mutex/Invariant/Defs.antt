-- ===== src/Mutex/Invariant/Defs.antt =====
-- The invariant, over an owner and the two lists of waiters.
use sheepcoro.Base.{
  ℕ, ◌+◌, ◌≤◌, ◌≡◌, ◌≢◌, Bool, true, false, Option, none, some, List, count, ◌==◌, if◌then◌else◌,
}
use sheepcoro.Awaiters.{Ptr, null}
use sheepcoro.Awaiters.Chain.{Chain}
use sheepcoro.Mutex.{nolocked}
use sheepcoro.Mutex.System.{Pc, registering, trying, suspended, woken, owner, draining, System}

-- The stack of new waiters starts at the word, and is empty where the word is `nolocked`.
abbrev pub top : Ptr → Ptr
top s = if s == nolocked then null else s

abbrev pub asleep : Pc → ℕ
asleep suspended = 1
asleep _ = 0

-- The coroutine has been given the lock and has not given it up.
abbrev pub holds : Pc → Bool
holds woken = true
holds owner = true
holds draining = true
holds _ = false

abbrev pub registers : Pc → Bool
registers registering = true
registers (trying _) = true
registers _ = false

abbrev pub is_owner : Option Ptr → Ptr → Bool
is_owner none j = false
is_owner (some i) j = i == j

abbrev pub is_none : Option Ptr → Bool
is_none none = true
is_none (some _) = false

pub record Inv (o : Option Ptr) (newer older : List Ptr) (s : System) : Type 0 where
  pub stack : Chain s.next (top s.state) newer
  pub queue : Chain s.next s.resume_list_head older
  pub sleepers : (j : Ptr) → count j newer + count j older ≡ asleep (s.pc j)
  pub holder : (j : Ptr) → holds (s.pc j) ≡ is_owner o j
  pub free : (s.state == nolocked) ≡ is_none o
  pub free_queue : is_none o ≡ true → s.resume_list_head ≡ null
  pub tried : (j seen : Ptr) → s.pc j ≡ trying seen → s.next j ≡ top seen
  pub address : (j : Ptr) → registers (s.pc j) ≡ true → 2 ≤ j
  pub drains : (j : Ptr) → s.pc j ≡ draining → (s.resume_list_head ≡ null) × (s.state ≢ null)
