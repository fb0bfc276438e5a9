-- ===== src/Event/Invariant/Defs.antt =====
-- The awaiters of an event stand in one list: the stack that the word heads while the event is not
-- set, and what the setter still has to resume afterwards.
use sheepcoro.Base.{ℕ, ◌≤◌, ◌≡◌, ◌≢◌, Bool, true, false, Option, none, some, List, count, ◌==◌}
use sheepcoro.Awaiters.{Ptr, null}
use sheepcoro.Awaiters.Chain.{Chain}
use sheepcoro.Event.{this}
use sheepcoro.Event.System.{
  Pc, registering, trying, suspended, woken, finished, walking, advancing, System,
}

abbrev pub asleep : Pc → ℕ
asleep suspended = 1
asleep _ = 0

abbrev pub resumed : Pc → ℕ
resumed woken = 1
resumed (finished true) = 1
resumed _ = 0

abbrev pub registers : Pc → Bool
registers registering = true
registers (trying _) = true
registers _ = false

abbrev pub walks : Pc → Bool
walks (walking _) = true
walks (advancing _) = true
walks _ = false

abbrev pub is_walker : Option Ptr → Ptr → Bool
is_walker none j = false
is_walker (some k) j = k == j

abbrev pub is_none : Option Ptr → Bool
is_none none = true
is_none (some _) = false

-- `o` is the coroutine whose `set_state` runs the loop, and the list `w` starts at `head`.
pub record Inv (o : Option Ptr) (head : Ptr) (w : List Ptr) (s : System) : Type 0 where
  pub chain : Chain s.next head w
  pub unset : s.state ≢ this → (head ≡ s.state) × (o ≡ none)
  pub done : s.state ≡ this → o ≡ none → head ≡ null
  pub sleepers : (j : Ptr) → count j w ≡ asleep (s.pc j)
  pub walker : (j : Ptr) → walks (s.pc j) ≡ is_walker o j
  pub cursor : (j c : Ptr) → s.pc j ≡ walking c → c ≡ head
  pub behind : (j c : Ptr) → s.pc j ≡ advancing c → s.next c ≡ head
  pub passed : (j c : Ptr) → s.pc j ≡ advancing c → resumed (s.pc c) ≡ 1
  pub tried : (j v : Ptr) → s.pc j ≡ trying v → (s.next j ≡ v) × (v ≢ this)
  pub address : (j : Ptr) → registers (s.pc j) ≡ true → 2 ≤ j
  pub once : (j : Ptr) → count j s.submitted ≡ resumed (s.pc j)
