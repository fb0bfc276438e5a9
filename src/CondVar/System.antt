-- ===== src/CondVar/System.antt =====
-- Coroutines over one mutex and one condition variable, on any number of threads. Each step is a
-- section of src/comp/condition_variable.cpp under the spinlock, a test of the predicate, or an
-- operation of the mutex, which is the lock with a queue of Mutex.Refinement.
use sheepcoro.Base.{
  ◌+◌, ◌≤◌, ◌≡◌, Bool, true, false, Option, none, some, List, [], ◌∷◌, ◌++◌, ◌==◌, if◌then◌else◌,
  count, remove,
}
use sheepcoro.Awaiters.{Ptr, null, update}
use sheepcoro.Awaiters.Chain.{Chain}
use sheepcoro.Mutex.Refinement.{Lock, lock}
use sheepcoro.CondVar.{CondVar, condition_variable, register_cv, pop_head, take_all}

-- Where a coroutine stands.
pub data Pc : Type 0 where
  idle : Pc
  locking : Pc  -- suspended in `lock`
  given : Pc  -- in `lock`, has been given the mutex
  owner : Pc  -- holds the mutex and runs
  failed : Pc  -- holds the mutex and has found its predicate false: register_cv runs next
  leaving : Pc  -- has registered with the condition variable and still holds the mutex
  waiting : Pc  -- suspended in `wait`
  notified : Pc  -- in `wait`, has been given the mutex: cv_awaiter::resume runs next

-- `called` are the awaiters that notifiers have taken off the list and not yet passed to the mutex;
-- `shared` is what the predicates read, and only the holder of the mutex writes it.
pub record System (S : Type 0) : Type 0 where
  pub cv : CondVar
  pub mutex : Lock
  pub called : List Ptr
  pub pc : Ptr → Pc
  pub shared : S

abbrev pub is_none : Option Ptr → Bool
is_none none = true
is_none (some _) = false

-- The holder's unlock: the longest waiter gets the mutex, if there is one.
abbrev pub pass : List Ptr → Lock
pass [] = lock none []
pass (x ∷ q) = lock (some x) q

abbrev pub grant : Pc → Pc
grant locking = given
grant _ = notified

abbrev pub granted : List Ptr → (Ptr → Pc) → Ptr → Pc
granted [] pc = pc
granted (x ∷ q) pc = update pc x (grant (pc x))

-- `m_cond && m_cond()` and `m_cond && !m_cond()`
abbrev pub holds_now : {S : Type 0} → Option (S → Bool) → S → Bool
holds_now none s = false
holds_now (some c) s = c s

abbrev pub fails_now : {S : Type 0} → Option (S → Bool) → S → Bool
fails_now none s = false
fails_now (some c) s = if c s then false else true

-- The predicate of awaiter i: m_cond, or none where `wait` was called without one.
module _ {S : Type 0} (cond : Ptr → Option (S → Bool)) where
  pub data Step (s : System S) : System S → Type 0 where
    lock_free :
        (i : Ptr)
        → s.pc i ≡ idle
        → s.mutex.holder ≡ none
        → Step s (record s { mutex = lock (some i) s.mutex.queue; pc = update s.pc i owner })
    lock_busy :
        (i h : Ptr)
        → 2 ≤ i
        → s.pc i ≡ idle
        → s.mutex.holder ≡ some h
        → Step s (record s {
          mutex = lock (some h) (s.mutex.queue ++ i ∷ []);
          pc = update s.pc i locking;
        })
    lock_return : (i : Ptr) → s.pc i ≡ given → Step s (record s { pc = update s.pc i owner })
    writes : (i : Ptr) (v : S) → s.pc i ≡ owner → Step s (record s { shared = v })
    unlock :
        (i : Ptr)
        → s.pc i ≡ owner
        → Step s (record s {
          mutex = pass s.mutex.queue;
          pc = granted s.mutex.queue (update s.pc i idle);
        })
    -- `wait`, whose await_suspend returns false
    wait_ready : (i : Ptr) → s.pc i ≡ owner → holds_now (cond i) s.shared ≡ true → Step s s
    wait_test :
        (i : Ptr)
        → 2 ≤ i
        → s.pc i ≡ owner
        → holds_now (cond i) s.shared ≡ false
        → Step s (record s { pc = update s.pc i failed })
    -- the register_cv of register_lock and of resume
    register :
        (i : Ptr)
        → s.pc i ≡ failed
        → Step s (record s { cv = register_cv i s.cv; pc = update s.pc i leaving })
    -- the unlock of register_lock and of resume
    leave :
        (i : Ptr)
        → s.pc i ≡ leaving
        → Step s (record s {
          mutex = pass s.mutex.queue;
          pc = granted s.mutex.queue (update s.pc i waiting);
        })
    notify_one :
        (i : Ptr) (c : CondVar)
        → pop_head s.cv ≡ (i, c)
        → Step s (record s { cv = c; called = if i == null then s.called else i ∷ s.called })
    -- the walk meets the awaiters w
    notify_all :
        (head : Ptr) (c : CondVar) (w : List Ptr)
        → take_all s.cv ≡ (head, c)
        → Chain s.cv.next head w
        → Step s (record s { cv = c; called = w ++ s.called })
    -- `wake_up` of an awaiter that a notifier has taken: register_lock takes the mutex, or enqueues
    wake_free :
        (i : Ptr)
        → 1 ≤ count i s.called
        → s.mutex.holder ≡ none
        → Step s (record s {
          mutex = lock (some i) s.mutex.queue;
          called = remove i s.called;
          pc = update s.pc i notified;
        })
    wake_busy :
        (i h : Ptr)
        → 1 ≤ count i s.called
        → s.mutex.holder ≡ some h
        → Step s (record s {
          mutex = lock (some h) (s.mutex.queue ++ i ∷ []);
          called = remove i s.called;
        })
    -- `resume`, which submits the handle or goes on to register again
    resume_true :
        (i : Ptr)
        → s.pc i ≡ notified
        → fails_now (cond i) s.shared ≡ false
        → Step s (record s { pc = update s.pc i owner })
    resume_false :
        (i : Ptr)
        → s.pc i ≡ notified
        → fails_now (cond i) s.shared ≡ true
        → Step s (record s { pc = update s.pc i failed })
    -- the mutex writes the links of the awaiters that it holds, or that are in a notifier's hands
    relinks :
        (i v : Ptr)
        → 1 ≤ count i s.mutex.queue + count i s.called
        → Step s (record s { cv = record s.cv { next = update s.cv.next i v } })

  pub data Reach (next : Ptr → Ptr) (v : S) : System S → Type 0 where
    start : Reach next v (record {
      cv = condition_variable next;
      mutex = lock none [];
      called = [];
      pc = λ _. idle;
      shared = v;
    })
    later : {s t : System S} → Reach next v s → Step s t → Reach next v t
