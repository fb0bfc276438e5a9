-- ===== src/Wakeup/System.antt =====
-- The context's thread, the threads that submit to it or stop it, and the kernel.
use sheepcoro.Base.{
  ℕ, suc, ◌+◌, ◌-◌, ◌%◌, ◌^◌, ◌≤◌, ◌<◌, ◌≡◌, ◌≢◌, Bool, true, false, some, ◌==◌, if◌then◌else◌,
}
use sheepcoro.Engine.{Handle, TaskQueue, wake_by_cqe}
use sheepcoro.Wakeup.{
  wait_eventfd, wake_up, Pc, head, working, running, checking, idle, stopping, polling, reading,
  peeking, handling, writing, ended, closed, acts, peek_num,
}

module _ (q : TaskQueue) where
  -- `owed` other threads are past their try_push or request_stop and have wake_up still to do;
  -- `owed_signals` completions have been posted and the eventfd is still to be signalled for them.
  -- `sq`, `inflight` and `cq` count the entries that are filled, that the kernel works on, and the
  -- completions that cq_advance has not passed.
  pub record System : Type 0 where
    pub queue : q.State
    pub eventfd : ℕ
    pub owed : ℕ
    pub stop : Bool
    pub num_wait : ℕ
    pub num_io_wait_submit : ℕ
    pub num_io_running : ℕ
    pub sq : ℕ
    pub inflight : ℕ
    pub cq : ℕ
    pub owed_signals : ℕ
    pub pc : Pc

  -- `empty_wait_task`
  abbrev pub empty_wait_task : System → Bool
  empty_wait_task s =
      if s.num_wait == 0
      then (if s.num_io_wait_submit == 0 then s.num_io_running == 0 else false)
      else false

  -- `scheduled` says that the stop callback is the one of the scheduler.
  pub data Step (scheduled : Bool) (s : System) : System → Type 0 where
    -- another thread: `submit_task`, `notify_stop`, and the `wake_up` of both
    pushes :
        (h : Handle) (t : q.State)
        → q.try_push h s.queue ≡ (true, t)
        → Step scheduled s (record s { queue = t; owed = suc s.owed })
    requests_stop : Step scheduled s (record s { stop = true; owed = suc s.owed })
    wakes :
        (n c : ℕ)
        → s.owed ≡ suc n
        → s.pc ≢ closed
        → wake_up s.eventfd ≡ some c
        → Step scheduled s (record s { eventfd = c; owed = n })
    -- the kernel, which signals fewer than 2 ^ 24 completions between two reads
    completes :
        (n : ℕ)
        → s.inflight ≡ suc n
        → Step scheduled s
            (record s { inflight = n; cq = suc s.cq; owed_signals = suc s.owed_signals })
    signals :
        (n : ℕ)
        → s.owed_signals ≡ suc n
        → s.eventfd % 2 ^ 24 + 1 < 2 ^ 24
        → Step scheduled s (record s { eventfd = s.eventfd + 1; owed_signals = n })
    -- `run`
    leaves : s.pc ≡ head → s.stop ≡ true → Step scheduled s (record s { pc = ended })
    deinits : s.pc ≡ ended → Step scheduled s (record s { pc = closed })
    works :
        s.pc ≡ head
        → s.stop ≡ false
        → Step scheduled s (record s { pc = working (q.was_size s.queue) })
    pops :
        (k : ℕ) (h : Handle) (t : q.State)
        → s.pc ≡ working (suc k)
        → q.pop s.queue ≡ some (h, t)
        → Step scheduled s (record s { queue = t; pc = running k })
    suspends : (k : ℕ) → s.pc ≡ running k → Step scheduled s (record s { pc = working k })
    worked : s.pc ≡ working 0 → Step scheduled s (record s { pc = checking })
    checks :
        s.pc ≡ checking
        → Step scheduled s (record s { pc = if empty_wait_task s then idle else polling })
    looks :
        s.pc ≡ idle
        → Step scheduled s (record s { pc = if q.was_empty s.queue then stopping else head })
    -- the stop callback: the one of `start`, and the one of the scheduler where tasks are left
    -- elsewhere, or where it stops all contexts
    stops_itself :
        scheduled ≡ false
        → s.pc ≡ stopping
        → Step scheduled s (record s { stop = true; pc = polling })
    goes_idle : scheduled ≡ true → s.pc ≡ stopping → Step scheduled s (record s { pc = polling })
    stops_all :
        scheduled ≡ true
        → s.pc ≡ stopping
        → Step scheduled s (record s { stop = true; pc = writing polling })
    writes :
        (p : Pc) (c : ℕ)
        → s.pc ≡ writing p
        → wake_up s.eventfd ≡ some c
        → Step scheduled s (record s { eventfd = c; pc = p })
    -- what a coroutine does: it submits a task, waits or is waited for, and starts an operation,
    -- before which the kernel may have to take entries
    submits :
        (h : Handle) (t : q.State)
        → acts s.pc ≡ true
        → q.try_push h s.queue ≡ (true, t)
        → Step scheduled s (record s { queue = t; pc = writing s.pc })
    counts : (n : ℕ) → acts s.pc ≡ true → Step scheduled s (record s { num_wait = n })
    adds_io :
        acts s.pc ≡ true
        → Step scheduled s
            (record s { num_io_wait_submit = suc s.num_io_wait_submit; sq = suc s.sq })
    frees_entries :
        (n : ℕ)
        → acts s.pc ≡ true
        → n ≤ s.sq
        → Step scheduled s (record s { sq = s.sq - n; inflight = s.inflight + n })
    -- `poll_submit`, where the kernel takes n entries
    submits_io :
        (n : ℕ)
        → s.pc ≡ polling
        → n ≤ (if s.num_io_wait_submit == 0 then 0 else s.sq)
        → Step scheduled s (record s {
          num_io_running = s.num_io_running + s.num_io_wait_submit;
          num_io_wait_submit = 0;
          sq = s.sq - n;
          inflight = s.inflight + n;
          pc = reading;
        })
    reads :
        (cnt c : ℕ)
        → s.pc ≡ reading
        → wait_eventfd s.eventfd ≡ some (cnt, c)
        → Step scheduled s
            (record s { eventfd = c; pc = if wake_by_cqe cnt then peeking else head })
    peeks :
        (num : ℕ)
        → s.pc ≡ peeking
        → num ≡ peek_num s.cq s.num_io_running
        → Step scheduled s (record s { pc = handling num num })
    handles :
        (k num : ℕ)
        → s.pc ≡ handling (suc k) num
        → Step scheduled s (record s { pc = handling k num })
    handled :
        (num : ℕ)
        → s.pc ≡ handling 0 num
        → Step scheduled s
            (record s { cq = s.cq - num; num_io_running = s.num_io_running - num; pc = head })

  -- The context is started with whatever was submitted to it before, each with its wake_up.
  abbrev pub started : q.State → (count num_wait : ℕ) → System
  started t count num_wait = record {
    queue = t;
    eventfd = count;
    owed = 0;
    stop = false;
    num_wait = num_wait;
    num_io_wait_submit = 0;
    num_io_running = 0;
    sq = 0;
    inflight = 0;
    cq = 0;
    owed_signals = 0;
    pc = head;
  }

  pub data Reach (scheduled : Bool) : System → Type 0 where
    start : (t : q.State) (count num_wait : ℕ) → Reach scheduled (started t count num_wait)
    later : {s t : System} → Reach scheduled s → Step scheduled s t → Reach scheduled t
