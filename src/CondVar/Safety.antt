-- ===== src/CondVar/Safety.antt =====
-- What a wait on a condition variable promises.
use sheepcoro.Base.{
  ◌+◌, ◌≡◌, refl, Bool, true, false, Option, none, some, List, [], ◌∷◌, ◌++◌, arith, count,
}
use sheepcoro.Awaiters.{Ptr}
use sheepcoro.CondVar.List.{IsList}
use sheepcoro.CondVar.System.{
  Pc, failed, leaving, idle, waiting, System, holds_now, fails_now, Step, lock_free, lock_busy,
  lock_return, writes, unlock, wait_ready, wait_test, register, leave, notify_one, notify_all,
  wake_free, wake_busy, resume_true, resume_false, relinks, Reach, start, later,
}
use sheepcoro.CondVar.Invariant.{
  tested, Inv, lock_free-Inv, lock_busy-Inv, lock_return-Inv, writes-Inv, pass-Inv, test-Inv,
  register-Inv, resume_true-Inv, wake_free-Inv, wake_busy-Inv, relinks-Inv, notify_one-Inv,
  notify_all-Inv,
}

failing :
    {S : Type 0} (c : Option (S → Bool)) (v : S) → fails_now c v ≡ true → holds_now c v ≡ false
failing none v e = cc
failing (some c) v e = ground arith

-- The coroutine has found its predicate false and has not been given the mutex since.
abbrev past_test : Pc → Bool
past_test failed = true
past_test leaving = true
past_test waiting = true
past_test _ = false

only_waiting : (p : Pc) → past_test p ≡ true → (tested p ≡ true → ⊥) → p ≡ waiting
only_waiting p at out = ground (arith, at, out)

module _ {S : Type 0} {cond : Ptr → Option (S → Bool)} where
  Step-Inv :
      {w : List Ptr} {s t : System S} → Inv cond w s → Step cond s t → (v : List Ptr) × Inv cond v t
  Step-Inv {w} inv (lock_free i at f) = (w, lock_free-Inv inv i at f)
  Step-Inv {w} inv (lock_busy i h small at f) = (w, lock_busy-Inv inv i h small at f)
  Step-Inv {w} inv (lock_return i at) = (w, lock_return-Inv inv i at)
  Step-Inv {w} inv (writes i v at) = (w, writes-Inv inv i v at)
  Step-Inv {w} {s} inv (unlock i at) =
      (w, pass-Inv inv i idle s.mutex.queue refl (rw at) (rw at) refl (λ e. cc) (λ e. cc))
  Step-Inv {w} inv (wait_ready i at e) = (w, inv)
  Step-Inv {w} inv (wait_test i small at e) = (w, test-Inv inv i small (rw at) (rw at) e)
  Step-Inv {w} inv (register i at) = (w ++ i ∷ [], register-Inv inv i at)
  Step-Inv {w} {s} inv (leave i at) = (
    w,
    pass-Inv inv i waiting s.mutex.queue refl (rw at) (rw at) refl (λ e. cc)
        (λ e. inv.address i (rw at)),
  )
  Step-Inv {w} inv (notify_one i c ret) = notify_one-Inv w inv i c ret
  Step-Inv {w} inv (notify_all head c v ret walk) = ([], notify_all-Inv w inv head c v ret walk)
  Step-Inv {w} inv (wake_free i in_hand f) = (w, wake_free-Inv inv i in_hand f)
  Step-Inv {w} inv (wake_busy i h in_hand f) = (w, wake_busy-Inv inv i h in_hand f)
  Step-Inv {w} inv (resume_true i at e) = (w, resume_true-Inv inv i at)
  Step-Inv {w} {s} inv (resume_false i at e) =
      (w, test-Inv inv i (inv.address i (rw at)) (rw at) (rw at) (failing (cond i) s.shared e))
  Step-Inv {w} inv (relinks i v elsewhere) = (w, relinks-Inv inv i v elsewhere)

  pub Reach-Inv :
      {next : Ptr → Ptr} {v : S} {s : System S}
      → Reach cond next v s
      → (w : List Ptr) × Inv cond w s
  Reach-Inv start = (
    [],
    record {
      list = record { chain = refl; ends = refl; once = λ j. omega arith };
      located = λ j. refl;
      plain = λ j p. cc;
      holder = λ j. refl;
      free = λ e. refl;
      kept = λ j p. cc;
      address = λ j p. cc;
    },
  )
  Reach-Inv (later r st) = let (w, inv) = Reach-Inv r in Step-Inv inv st

  -- No waiter is forgotten: in every reachable state a coroutine that is suspended in `wait` stands
  -- exactly once, in the list of the condition variable, among the awaiters that a notifier has
  -- taken off it, or in the queue of the mutex; and nobody waits for a mutex that is free.
  pub waiter_located :
      {next : Ptr → Ptr} {v : S} {s : System S}
      → Reach cond next v s
      → (j : Ptr) → s.pc j ≡ waiting
      → (w : List Ptr) × IsList w s.cv
        × (count j w + count j s.called + count j s.mutex.queue ≡ 1)
        × (s.mutex.holder ≡ none → s.mutex.queue ≡ [])
  waiter_located r j at =
      let (w, inv) = Reach-Inv r in
      (w, inv.list, ground (arith, inv.located j), λ e. inv.free (rw e))

  -- A change finds its waiter: in every reachable state, where what the predicates read is written
  -- by the holder of the mutex only, a coroutine that has found its predicate false, in `wait` or
  -- when it was resumed there, and has not been given the mutex since, has a predicate that is true
  -- only if it has registered and released the mutex; and then it stands exactly once in the list of
  -- the condition variable, among the awaiters that a notifier has taken off it, or in the queue of
  -- the mutex.
  pub change_finds_waiter :
      {next : Ptr → Ptr} {v : S} {s : System S}
      → Reach cond next v s
      → (j : Ptr) → past_test (s.pc j) ≡ true
      → holds_now (cond j) s.shared ≡ true
      → (s.pc j ≡ waiting)
        × (w : List Ptr) × IsList w s.cv
        × (count j w + count j s.called + count j s.mutex.queue ≡ 1)
  change_finds_waiter {s = s} r j at now =
      let (w, inv) = Reach-Inv r in
      let there = only_waiting (s.pc j) at (λ h. absurd (ground (arith, inv.kept j h, now))) in
      (there, w, inv.list, ground (arith, inv.located j, there))
