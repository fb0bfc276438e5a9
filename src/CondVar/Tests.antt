-- ===== src/CondVar/Tests.antt =====
-- Runs and witnesses for CondVar.antt.
use sheepcoro.Base.{
  ℕ, ◌+◌, ◌≡◌, refl, Bool, true, false, Option, none, some, List, [], ◌∷◌, arith, count, ◌==◌,
  if◌then◌else◌,
}
use sheepcoro.Awaiters.{Ptr, null}
use sheepcoro.CondVar.{condition_variable, register_cv, pop_head}
use sheepcoro.CondVar.List.{IsList}
use sheepcoro.CondVar.Order.{Call, registers, notifies, run, run_fifo, notify_order}
use sheepcoro.CondVar.System.{
  waiting, System, holds_now, lock_free, wait_test, register, leave, writes, Reach, start, later,
}
use sheepcoro.CondVar.Count.{Waiter, fails, others, wait, wait_lem}
use sheepcoro.CondVar.Safety.{waiter_located, change_finds_waiter}

abbrev no_links : Ptr → Ptr
no_links p = null

abbrev calls : List Call
calls = registers 2 ∷ registers 3 ∷ notifies ∷ registers 4 ∷ notifies ∷ notifies ∷ notifies ∷ []

woken : run calls (condition_variable no_links) ≡ 2 ∷ 3 ∷ 4 ∷ null ∷ []
unfolding run register_cv pop_head
woken = refl

empty-IsList : IsList [] (condition_variable no_links)
empty-IsList = record { chain = refl; ends = refl; once = λ j. omega arith }

notify_order_example : run calls (condition_variable no_links) ≡ run_fifo calls []
notify_order_example =
    notify_order calls [] (condition_variable no_links) empty-IsList (omega arith)

-- Everybody waits for a nonzero number.
abbrev nonzero : Ptr → Option (ℕ → Bool)
nonzero i = some (λ v. if v == 0 then false else true)

abbrev Asleep : Type 0
Asleep = (s : System ℕ) × Reach nonzero no_links 0 s × (s.pc 2 ≡ waiting)

asleep : Asleep
asleep = (
  _,
  later
      (later (later (later start (lock_free 2 refl refl)) (wait_test 2 (omega arith) refl refl))
        (register 2 refl))
      (leave 2 refl),
  refl,
)

-- Coroutine 3 takes the mutex and writes what coroutine 2 waits for.
abbrev Changed : Type 0
Changed =
    (s : System ℕ) × Reach nonzero no_links 0 s
    × (s.pc 2 ≡ waiting)
    × (holds_now (nonzero 2) s.shared ≡ true)

changed : Changed
changed = (
  _,
  later
      (later
        (later
          (later (later (later start (lock_free 2 refl refl)) (wait_test 2 (omega arith) refl refl))
            (register 2 refl))
          (leave 2 refl))
        (lock_free 3 refl refl))
      (writes 3 5 refl),
  refl,
  refl,
)

change_finds_waiter_example :
    (changed.0.pc 2 ≡ waiting)
    × (w : List Ptr) × IsList w changed.0.cv
    × (count 2 w + count 2 changed.0.called + count 2 changed.0.mutex.queue ≡ 1)
change_finds_waiter_example = change_finds_waiter changed.1 2 (rw changed.2) changed.3

waiter_located_example :
    (w : List Ptr) × IsList w asleep.0.cv
    × (count 2 w + count 2 asleep.0.called + count 2 asleep.0.mutex.queue ≡ 1)
    × (asleep.0.mutex.holder ≡ none → asleep.0.mutex.queue ≡ [])
waiter_located_example = waiter_located asleep.1 2 asleep.2

-- A wait on a context with 5 waiting tasks, which is woken in vain twice while two more come.
abbrev new_waiter : Waiter
new_waiter = record {
  suspend_state = false;
  awaiters = record { next = no_links; ctx = λ p. 0; num_wait = λ c. 5; submitted = [] };
}

wait_lem_example :
    ((wait 3 false (fails ∷ others 2 ∷ fails ∷ []) new_waiter).awaiters.num_wait 0 ≡ 7)
    × ((wait 3 false (fails ∷ others 2 ∷ fails ∷ []) new_waiter).awaiters.submitted ≡ 3 ∷ [])
wait_lem_example = wait_lem 3 false (fails ∷ others 2 ∷ fails ∷ []) new_waiter refl
