-- ===== src/Wakeup/Safety.antt =====
-- What holds of a context's thread whenever it sleeps, and when it takes a task.
use sheepcoro.Base.{
  ℕ, suc, ◌+◌, ◌-◌, ◌≡◌, refl, ap, Bool, some, List, [], ◌∷◌, arith, if◌then◌else◌, Bool-cases, inl,
  inr,
}
use sheepcoro.Engine.{Handle, TaskQueue, IsTaskQueue}
use sheepcoro.Wakeup.{
  head, working, running, checking, idle, stopping, polling, writing, ended, closed,
}
use sheepcoro.Wakeup.System.{
  System, empty_wait_task, Step, pushes, requests_stop, wakes, completes, signals, leaves, deinits,
  works, pops, suspends, worked, checks, looks, stops_itself, goes_idle, stops_all, writes, submits,
  counts, adds_io, frees_entries, submits_io, reads, peeks, handles, handled, Reach, start, later,
}
use sheepcoro.Wakeup.Invariant.{
  Inv, left, pushes-Inv, requests_stop-Inv, wakes-Inv, completes-Inv, signals-Inv, moves-Inv,
  works-Inv, pops-Inv, submits-Inv, writes-Inv, stops-Inv, counts-Inv, submits_io-Inv, reads-Inv,
  peeks-Inv, handled-Inv, entries-Inv,
}

module _ {q : TaskQueue} (law : IsTaskQueue q) (scheduled : Bool) where
  -- empty_wait_task leads on to `ready` or to poll_work.
  checks-Inv :
      {s : System q}
      → Inv law scheduled s
      → s.pc ≡ checking
      → Inv law scheduled (record s { pc = if empty_wait_task q s then idle else polling })
  checks-Inv {s} inv at = elim (Bool-cases (empty_wait_task q s)) [
    | inr y ↦ simp (y) (
        moves-Inv law scheduled checking polling inv at (λ _. (refl, omega arith)) (omega arith)
          refl refl refl refl refl)
    | inl y ↦ simp (y) (
        moves-Inv law scheduled checking idle inv at (λ _. (refl, omega arith)) (omega arith) refl
          refl refl refl refl)
  ]

  looks-Inv :
      {s : System q}
      → Inv law scheduled s
      → s.pc ≡ idle
      → Inv law scheduled (record s { pc = if q.was_empty s.queue then stopping else head })
  looks-Inv {s} inv at = elim (Bool-cases (q.was_empty s.queue)) [
    | inr y ↦ simp (y) (
        moves-Inv law scheduled idle head inv at (λ m. absurd (ground (arith, m))) (omega arith)
          refl refl refl refl refl)
    | inl y ↦ simp (y) (
        moves-Inv law scheduled idle stopping inv at (λ _. (refl, omega arith)) (omega arith) refl
          refl refl refl refl)
  ]

  Step-Inv : {s t : System q} → Inv law scheduled s → Step q scheduled s t → Inv law scheduled t
  Step-Inv inv (pushes h t e) = pushes-Inv law scheduled h t inv e
  Step-Inv inv requests_stop = requests_stop-Inv law scheduled inv
  Step-Inv inv (wakes n c e _ w) = wakes-Inv law scheduled n c inv e w
  Step-Inv inv (completes n e) = completes-Inv law scheduled n inv e
  Step-Inv inv (signals n e few) = signals-Inv law scheduled n inv e few
  Step-Inv inv (leaves at _) =
      moves-Inv law scheduled head ended inv at (λ m. absurd (ground (arith, m))) (omega arith) refl
        refl refl refl refl
  Step-Inv inv (deinits at) =
      moves-Inv law scheduled ended closed inv at (λ m. absurd (ground (arith, m))) (omega arith)
        refl refl refl refl refl
  Step-Inv inv (works at goes) = works-Inv law scheduled inv at goes
  Step-Inv inv (pops k h t at e) = pops-Inv law scheduled k h t inv at e
  Step-Inv inv (suspends k at) =
      moves-Inv law scheduled (running k) (working k) inv at (λ _. (refl, omega arith))
        (omega arith) refl refl refl refl refl
  Step-Inv inv (worked at) =
      moves-Inv law scheduled (working 0) checking inv at (λ _. (refl, omega arith)) (omega arith)
        refl refl refl refl refl
  Step-Inv inv (checks at) = checks-Inv inv at
  Step-Inv inv (looks at) = looks-Inv inv at
  Step-Inv inv (stops_itself sc at) =
      stops-Inv law scheduled polling inv at (λ sc'. absurd (ground (arith, sc, sc')))
        (refl, refl, refl, refl)
  Step-Inv inv (goes_idle _ at) =
      moves-Inv law scheduled stopping polling inv at (λ _. (refl, omega arith)) (omega arith) refl
        refl refl refl refl
  Step-Inv inv (stops_all _ at) =
      stops-Inv law scheduled (writing polling) inv at (λ _. refl) (refl, refl, refl, refl)
  Step-Inv inv (writes p c at w) = writes-Inv law scheduled p c inv at w
  Step-Inv inv (submits h t a e) = submits-Inv law scheduled h t inv a e
  Step-Inv inv (counts n _) = counts-Inv law scheduled n inv
  Step-Inv {s} inv (adds_io a) =
      entries-Inv law scheduled (suc s.num_io_wait_submit) (suc s.sq) s.inflight inv a (omega arith)
  Step-Inv {s} inv (frees_entries n a few) =
      entries-Inv law scheduled s.num_io_wait_submit (s.sq - n) (s.inflight + n) inv a
        (omega (arith, few))
  Step-Inv {s} inv (submits_io n at few) =
      submits_io-Inv law scheduled n inv at (ground (arith, few))
  Step-Inv inv (reads cnt c at e) = reads-Inv law scheduled cnt c inv at e
  Step-Inv inv (peeks num at e) = peeks-Inv law scheduled num inv at e
  Step-Inv inv (handles k num at) =
      moves-Inv law scheduled _ _ inv at (λ m. absurd (ground (arith, m))) (omega arith) refl refl
        refl refl refl
  Step-Inv inv (handled num at) = handled-Inv law scheduled num inv at

  Reach-Inv : {s : System q} → Reach q scheduled s → Inv law scheduled s
  Reach-Inv (start t count num_wait) = record {
    queued = λ m z. absurd (ground (arith, m));
    enough = omega arith;
    stopped = λ sc m st. absurd (ground (arith, m));
    seen = λ pk. omega arith;
    total = refl;
    none_waits = λ qt. refl;
    held_ready = omega arith;
    held_running = omega arith;
  }
  Reach-Inv (later r st) = Step-Inv (Reach-Inv r) st

  -- A thread that starts a turn of process_work finds a task each time it pops, so that it never
  -- waits there for a push.
  pub pop_returns :
      {s : System q} (k : ℕ)
      → Reach q scheduled s
      → s.pc ≡ working (suc k)
      → (h : Handle) × (t : q.State) × q.pop s.queue ≡ some (h, t)
  pop_returns {s} k r at = go (law.contents s.queue) refl
    where
      go :
          (l : List Handle)
          → law.contents s.queue ≡ l
          → (h : Handle) × (t : q.State) × q.pop s.queue ≡ some (h, t)
      go [] y = absurd (ground (arith, (Reach-Inv r).enough, ap left at, y))
      go (h ∷ hs) y = let (t, e, _) = law.popped s.queue h hs y in (h, t, e)
