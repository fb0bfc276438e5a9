-- ===== src/Mutex/System.antt =====
-- Coroutines over one mutex, on any number of threads: each step is one atomic access of a
-- function of src/comp/mutex.cpp, and the steps of different coroutines interleave in any order.
use sheepcoro.Base.{ℕ, ◌≤◌, ◌≡◌, ◌≢◌, true, false, some}
use sheepcoro.Awaiters.{Ptr, null, update, Awaiters}
use sheepcoro.Mutex.{
  Mutex, fresh, await_suspend, await_resume, register_load, Round, locked, enqueued, again,
  register_cas, try_lock, resume_first, unlock_cas, unlock_drain,
}

-- Where a coroutine stands in its use of the mutex.
pub data Pc : Type 0 where
  idle : Pc  -- outside
  registering : Pc  -- at the head of the loop of `register_lock`
  trying : (seen : Ptr) → Pc  -- between the load and the compare-exchange
  suspended : Pc  -- `await_suspend` has returned true
  woken : Pc  -- resumed, or never suspended: `await_resume` runs next
  owner : Pc  -- between lock and unlock
  draining : Pc  -- in `unlock`, after its compare-exchange failed

pub record System : Type 0 where
  pub mutex : Mutex
  pub open mutex use *
  pub pc : Ptr → Pc

abbrev pub after_cas : Round → Pc
after_cas locked = woken
after_cas enqueued = suspended
after_cas again = registering

-- The coroutine `i` uses the awaiter at address `i`. An owner's unlock ends with a hand-over to the
-- awaiter that `resume_first` submits, which is woken.
pub data Step (s : System) : System → Type 0 where
  suspend :
      (i : Ptr)
      → 2 ≤ i
      → s.pc i ≡ idle
      → Step s (record { mutex = await_suspend i s.mutex; pc = update s.pc i registering })
  load :
      (i : Ptr)
      → s.pc i ≡ registering
      → Step s (record { mutex = register_load i s.mutex; pc = update s.pc i (trying s.state) })
  cas :
      (i : Ptr) {seen : Ptr} (r : Round) (m : Mutex)
      → s.pc i ≡ trying seen
      → register_cas i seen s.mutex ≡ (r, m)
      → Step s (record { mutex = m; pc = update s.pc i (after_cas r) })
  -- a weak compare-exchange may fail for no reason
  spurious :
      (i : Ptr) {seen : Ptr}
      → s.pc i ≡ trying seen
      → Step s (record s { pc = update s.pc i registering })
  resume :
      (i : Ptr)
      → s.pc i ≡ woken
      → Step s (record { mutex = await_resume i s.mutex; pc = update s.pc i owner })
  try_win :
      (i : Ptr) (m : Mutex)
      → s.pc i ≡ idle
      → try_lock s.mutex ≡ (true, m)
      → Step s (record { mutex = m; pc = update s.pc i owner })
  try_lose :
      (i : Ptr) (m : Mutex)
      → s.pc i ≡ idle
      → try_lock s.mutex ≡ (false, m)
      → Step s (record { mutex = m; pc = s.pc })
  unlock_next :
      (i : Ptr)
      → s.pc i ≡ owner
      → s.resume_list_head ≢ null
      → Step s (record {
        mutex = resume_first s.resume_list_head s.mutex;
        pc = update (update s.pc i idle) s.resume_list_head woken;
      })
  unlock_free :
      (i : Ptr) (m : Mutex)
      → s.pc i ≡ owner
      → s.resume_list_head ≡ null
      → unlock_cas s.mutex ≡ (true, m)
      → Step s (record { mutex = m; pc = update s.pc i idle })
  unlock_busy :
      (i : Ptr) (m : Mutex)
      → s.pc i ≡ owner
      → s.resume_list_head ≡ null
      → unlock_cas s.mutex ≡ (false, m)
      → Step s (record { mutex = m; pc = update s.pc i draining })
  drain :
      (i : Ptr) (fuel : ℕ) (head : Ptr) (m : Mutex)
      → s.pc i ≡ draining
      → unlock_drain fuel s.mutex ≡ some (head, m)
      → Step s (record { mutex = m; pc = update (update s.pc i idle) head woken })

pub data Reach (h : Awaiters) : System → Type 0 where
  start : Reach h (record { mutex = fresh h; pc = λ _. idle })
  later : {s t : System} → Reach h s → Step s t → Reach h t
