-- ===== src/Wakeup/Invariant/Others.antt =====
-- The steps of other threads and of the kernel keep the invariant.
use sheepcoro.Base.{ℕ, suc, ◌+◌, ◌%◌, ◌^◌, ◌<◌, ◌≡◌, Bool, true, some, arith}
use sheepcoro.Engine.{Handle, TaskQueue, IsTaskQueue}
use sheepcoro.Wakeup.{wake_up}
use sheepcoro.Wakeup.System.{System}
use sheepcoro.Wakeup.Invariant.Defs.{woken_count, Inv, pushed_size}

module _ {q : TaskQueue} (law : IsTaskQueue q) (scheduled : Bool) where
  pub pushes-Inv :
      {s : System q} (h : Handle) (t : q.State)
      → Inv law scheduled s
      → q.try_push h s.queue ≡ (true, t)
      → Inv law scheduled (record s { queue = t; owed = suc s.owed })
  pushes-Inv {s} h t inv e = record {
    queued = λ m z. absurd (omega (arith, z));
    enough = omega (arith, inv.enough, pushed_size law scheduled h s.queue t e);
    stopped = λ sc m st. omega arith;
    seen = inv.seen;
    total = inv.total;
    none_waits = inv.none_waits;
    held_ready = inv.held_ready;
    held_running = inv.held_running;
  }

  pub wakes-Inv :
      {s : System q} (n c : ℕ)
      → Inv law scheduled s
      → s.owed ≡ suc n
      → wake_up s.eventfd ≡ some c
      → Inv law scheduled (record s { eventfd = c; owed = n })
  wakes-Inv {s} n c inv e w =
      let (more, low) = woken_count s.eventfd c w in
      record {
        queued = λ m z. absurd (omega (arith, z, more));
        enough = inv.enough;
        stopped = λ sc m st. omega (arith, more);
        seen = λ p. omega (arith, inv.seen p, low);
        total = inv.total;
        none_waits = inv.none_waits;
        held_ready = inv.held_ready;
        held_running = inv.held_running;
      }

  pub requests_stop-Inv :
      {s : System q}
      → Inv law scheduled s
      → Inv law scheduled (record s { stop = true; owed = suc s.owed })
  requests_stop-Inv {s} inv = record {
    queued = λ m z. absurd (omega (arith, z));
    enough = inv.enough;
    stopped = λ sc m st. omega arith;
    seen = inv.seen;
    total = inv.total;
    none_waits = inv.none_waits;
    held_ready = inv.held_ready;
    held_running = inv.held_running;
  }

  pub completes-Inv :
      {s : System q} (n : ℕ)
      → Inv law scheduled s
      → s.inflight ≡ suc n
      → Inv law scheduled
          (record s { inflight = n; cq = suc s.cq; owed_signals = suc s.owed_signals })
  completes-Inv {s} n inv e = record {
    queued = inv.queued;
    enough = inv.enough;
    stopped = inv.stopped;
    seen = λ p. omega (arith, inv.seen p);
    total = omega (arith, inv.total, e);
    none_waits = inv.none_waits;
    held_ready = omega (arith, inv.held_ready);
    held_running = inv.held_running;
  }

  pub signals-Inv :
      {s : System q} (n : ℕ)
      → Inv law scheduled s
      → s.owed_signals ≡ suc n
      → s.eventfd % 2 ^ 24 + 1 < 2 ^ 24
      → Inv law scheduled (record s { eventfd = s.eventfd + 1; owed_signals = n })
  signals-Inv {s} n inv e few = record {
    queued = λ m z. absurd (omega (arith, z));
    enough = inv.enough;
    stopped = λ sc m st. omega arith;
    seen = λ p. omega (arith, inv.seen p, e, few);
    total = inv.total;
    none_waits = inv.none_waits;
    held_ready = inv.held_ready;
    held_running = inv.held_running;
  }
