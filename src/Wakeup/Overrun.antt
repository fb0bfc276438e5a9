-- ===== src/Wakeup/Overrun.antt =====
-- What happens where the eventfd is written over and over and never read.
use sheepcoro.Base.{
  ℕ, zero, suc, ◌-◌, ◌^◌, ◌*◌, ◌≤◌, ◌≡◌, refl, ap, ◌∙◌, subst, Bool, true, false, none, some, [],
  ◌∷◌, ◌++◌, arith, if◌then◌else◌, length,
}
use sheepcoro.Engine.{Handle, TaskQueue, IsTaskQueue, task_flag}
use sheepcoro.Wakeup.{max_count, wake_up, Pc, head, working, running, stopping, writing}
use sheepcoro.Wakeup.System.{
  System, started, Step, pushes, requests_stop, wakes, completes, signals, leaves, deinits, works,
  pops, suspends, worked, checks, looks, stops_itself, goes_idle, stops_all, writes, submits,
  counts, adds_io, frees_entries, submits_io, reads, peeks, handles, handled, Reach, start, later,
}

module _ {q : TaskQueue} (scheduled : Bool) where
  -- Any number of steps, of any thread.
  pub data Run (s : System q) : System q → Type 0 where
    stay : Run s s
    onward : {t u : System q} → Run s t → Step q scheduled t u → Run s u

  keeps_blocked :
      {s t : System q} (p : Pc)
      → s.pc ≡ writing p
      → wake_up s.eventfd ≡ none
      → Step q scheduled s t
      → (t.pc ≡ writing p) × (wake_up t.eventfd ≡ none)
  keeps_blocked p at full (pushes h t e) = (at, full)
  keeps_blocked p at full requests_stop = (at, full)
  keeps_blocked p at full (wakes n c e _ w) = absurd (ground (arith, full, w))
  keeps_blocked p at full (completes n e) = (at, full)
  keeps_blocked p at full (signals n e few) = (at, ground (arith, full))
  keeps_blocked p at full (leaves at' _) = absurd (ground (arith, at, at'))
  keeps_blocked p at full (deinits at') = absurd (ground (arith, at, at'))
  keeps_blocked p at full (works at' _) = absurd (ground (arith, at, at'))
  keeps_blocked p at full (pops k h t at' e) = absurd (ground (arith, at, at'))
  keeps_blocked p at full (suspends k at') = absurd (ground (arith, at, at'))
  keeps_blocked p at full (worked at') = absurd (ground (arith, at, at'))
  keeps_blocked p at full (checks at') = absurd (ground (arith, at, at'))
  keeps_blocked p at full (looks at') = absurd (ground (arith, at, at'))
  keeps_blocked p at full (stops_itself _ at') = absurd (ground (arith, at, at'))
  keeps_blocked p at full (goes_idle _ at') = absurd (ground (arith, at, at'))
  keeps_blocked p at full (stops_all _ at') = absurd (ground (arith, at, at'))
  keeps_blocked p at full (writes p' c at' w) = absurd (ground (arith, full, w))
  keeps_blocked {s} p at full (submits h t a e) = absurd (ground (arith, at, a))
  keeps_blocked p at full (counts n a) = (at, full)
  keeps_blocked p at full (adds_io a) = (at, full)
  keeps_blocked p at full (frees_entries n a few) = (at, full)
  keeps_blocked p at full (submits_io n at' few) = absurd (ground (arith, at, at'))
  keeps_blocked p at full (reads cnt c at' e) = absurd (ground (arith, at, at'))
  keeps_blocked p at full (peeks num at' e) = absurd (ground (arith, at, at'))
  keeps_blocked p at full (handles k num at') = absurd (ground (arith, at, at'))
  keeps_blocked p at full (handled num at') = absurd (ground (arith, at, at'))

  -- A thread that writes to an eventfd without room stays in that write, and the eventfd without
  -- room, whatever the thread, the others and the kernel do.
  stays_blocked :
      {s t : System q} (p : Pc)
      → s.pc ≡ writing p
      → wake_up s.eventfd ≡ none
      → Run s t
      → (t.pc ≡ writing p) × (wake_up t.eventfd ≡ none)
  stays_blocked p at full stay = (at, full)
  stays_blocked p at full (onward r st) =
      let (at', full') = stays_blocked p at full r in keeps_blocked p at' full' st

-- A context with one task, which each time submits one task and is done.
module _ {q : TaskQueue} (law : IsTaskQueue q) (scheduled : Bool) (h : Handle)
    (room : (t : q.State)
      → law.contents t ≡ []
      → (t' : q.State) × (q.try_push h t ≡ (true, t'))) where
  -- `run` before its turn number n.
  abbrev pub before : (t : q.State) (n : ℕ) → System q
  before t n = record (started q t 0 0) { eventfd = n * task_flag }

  -- In its turn number n, in the write of wake_up.
  abbrev pub within : (t : q.State) (n : ℕ) → System q
  within t n = record (before t n) { pc = writing (running 0) }

  enters :
      (t : q.State) (n : ℕ)
      → law.contents t ≡ h ∷ []
      → Reach q scheduled (before t n)
      → (t' : q.State) × (law.contents t' ≡ h ∷ []) × Reach q scheduled (within t' n)
  enters t n one r =
      let (t', e, none_left) = law.popped t h [] one in
      let (t'', e') = room t' none_left in
      (
        t'',
        law.pushed h t' t'' e' ∙ ap (λ l. l ++ h ∷ []) none_left,
        later
            (later (later r (works refl refl))
              (pops 0 h t' (ap working (law.size t ∙ ap length one)) e))
            (submits h t'' refl e'),
      )

  returns :
      (t : q.State) (n : ℕ)
      → law.contents t ≡ h ∷ []
      → suc n * task_flag ≤ max_count
      → Reach q scheduled (within t n)
      → Reach q scheduled (before t (suc n))
  returns t n one fits r =
      let wrote : wake_up (n * task_flag) ≡ some (suc n * task_flag) = ground (arith, fits) in
      let ready : q.was_empty t ≡ false = ground (arith, law.empty t, one) in
      let back =
        later
          (later
            (later (later r (writes (running 0) (suc n * task_flag) refl wrote)) (suspends 0 refl))
            (worked refl))
          (checks refl) in
      subst
        (λ b. Reach q scheduled (record (before t (suc n)) { pc = if b then stopping else head }))
        ready (later back (looks refl))

  turns :
      (n : ℕ) (t : q.State)
      → law.contents t ≡ h ∷ []
      → n * task_flag ≤ max_count
      → (t' : q.State) × (law.contents t' ≡ h ∷ []) × Reach q scheduled (before t' n)
  turns zero t one fits = (t, one, start t 0 0)
  turns (suc n) t one fits =
      let (t', one', r) = turns n t one (omega (arith, fits)) in
      let (t'', one'', r') = enters t' n one' r in (t'', one'', returns t'' n one'' fits r')

  pub filled :
      (t : q.State)
      → law.contents t ≡ h ∷ []
      → (t' : q.State) × Reach q scheduled (within t' (2 ^ 20 - 1))
  filled t one =
      let (t', one', r) = turns (2 ^ 20 - 1) t one (omega arith) in
      let (t'', one'', r') = enters t' (2 ^ 20 - 1) one' r in (t'', r')

  -- Where such a context comes to after 2 ^ 20 - 1 turns.
  abbrev pub full : (t : q.State) → law.contents t ≡ h ∷ [] → System q
  full t one = within (filled t one).0 (2 ^ 20 - 1)

  -- Where the queue takes a task when it is empty, a context that starts with one task, and whose
  -- task each time only submits one task, comes to a wake_up that waits for room in the eventfd, and
  -- stays in it, and the eventfd without room, whatever the thread, the others and the kernel do.
  pub blocks_itself :
      {u : System q} (t : q.State) (one : law.contents t ≡ h ∷ [])
      → Run scheduled (full t one) u
      → Reach q scheduled (full t one) × (u.pc ≡ writing (running 0)) × (wake_up u.eventfd ≡ none)
  blocks_itself t one run =
      let (at, no_room) = stays_blocked scheduled (running 0) refl refl run in
      ((filled t one).1, at, no_room)
