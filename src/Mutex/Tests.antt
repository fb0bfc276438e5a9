-- ===== src/Mutex/Tests.antt =====
-- Two coroutines, at awaiters 2 and 3, on one mutex.
use sheepcoro.Base.{ℕ, ◌+◌, count, ◌≡◌, refl, none, some, [], ◌∷◌, ◌++◌, arith}
use sheepcoro.Awaiters.{Ptr, Awaiters, null, update}
use sheepcoro.Mutex.{
  Mutex, locked, enqueued, fresh, await_suspend, await_resume, register_load, register_cas, unlock,
  unlock_cas, unlock_drain,
}
use sheepcoro.Mutex.System.{
  System, idle, registering, owner, suspended, draining, suspend, load, cas, resume, unlock_busy,
  Reach, start, later,
}
use sheepcoro.Mutex.Refinement.{Refined, Step-Fifo, fresh-Represents, lock}
use sheepcoro.Mutex.Submits.{woken_by}
use sheepcoro.Mutex.Safety.{mutual_exclusion, unlock_drain_returns}

abbrev no_waits : Awaiters
no_waits = record { next = λ _. null; ctx = λ _. 0; num_wait = λ _. 0; submitted = [] }

unlock_alone : unlock 1 (record (fresh no_waits) { state = null }) ≡ some (fresh no_waits)
unfolding unlock
unlock_alone = refl

abbrev Contended : Type 0
Contended = (s : System) × Reach no_waits s × (s.pc 2 ≡ owner) × (s.pc 3 ≡ suspended)

contended : Contended
unfolding await_suspend register_load register_cas await_resume
contended = (
  _,
  later
      (later
        (later
          (later
            (later (later (later start (suspend 2 (omega arith) refl)) (load 2 refl))
              (cas 2 locked _ refl refl))
            (resume 2 refl))
          (suspend 3 (omega arith) refl))
        (load 3 refl))
      (cas 3 enqueued _ refl refl),
  refl,
  refl,
)

-- Coroutine 2 has entered `unlock`, and its compare-exchange has found the waiter.
abbrev Leaving : Type 0
Leaving = (s : System) × Reach no_waits s × (s.pc 2 ≡ draining) × (s.pc 3 ≡ suspended)

leaving : Leaving
unfolding contended await_suspend register_load register_cas await_resume unlock_cas
leaving = (_, later contended.1 (unlock_busy 2 _ refl refl refl), refl, refl)

mutual_exclusion_example : ◌≡◌ {A = ℕ} 2 2
mutual_exclusion_example = mutual_exclusion contended.1 2 2 (rw contended.2) (rw contended.2)

unlock_drain_returns_example :
    (fuel : ℕ) × (m : Mutex) × (x : Ptr) × (unlock_drain fuel leaving.0.mutex ≡ some (x, m))
    × (leaving.0.pc x ≡ suspended)
    × (m.submitted ≡ leaving.0.submitted ++ x ∷ [])
unlock_drain_returns_example = unlock_drain_returns leaving.1 2 leaving.2

abbrev entered : System
entered = record { mutex = await_suspend 2 (fresh no_waits); pc = update (λ _. idle) 2 registering }

Step-Fifo_example :
    Refined (lock none []) entered
    × ((j : Ptr) → count j entered.submitted ≡ 0 + woken_by idle (entered.pc j))
Step-Fifo_example = Step-Fifo (fresh-Represents no_waits) (suspend 2 (omega arith) refl)
