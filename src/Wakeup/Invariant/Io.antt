-- ===== src/Wakeup/Invariant/Io.antt =====
-- The steps over the io_uring keep the invariant.
use sheepcoro.Base.{
  ℕ, ◌+◌, ◌-◌, ◌≤◌, ◌≡◌, refl, ap, Bool, true, some, arith, if◌then◌else◌, Bool-cases, inl, inr,
}
use sheepcoro.Engine.{TaskQueue, IsTaskQueue, wake_by_cqe}
use sheepcoro.Engine.Poll.{wake_by_cqe_lem}
use sheepcoro.Wakeup.{wait_eventfd, head, polling, reading, peeking, handling, acts, peek_num}
use sheepcoro.Wakeup.System.{System}
use sheepcoro.Wakeup.Invariant.Defs.{measured, left, held, own, is_peeking, quiet, acts_lem, Inv}

module _ {q : TaskQueue} (law : IsTaskQueue q) (scheduled : Bool) where
  pub submits_io-Inv :
      {s : System q} (n : ℕ)
      → Inv law scheduled s
      → s.pc ≡ polling
      → n ≤ s.sq
      → Inv law scheduled (record s {
        num_io_running = s.num_io_running + s.num_io_wait_submit;
        num_io_wait_submit = 0;
        sq = s.sq - n;
        inflight = s.inflight + n;
        pc = reading;
      })
  submits_io-Inv {s} n inv at few = record {
    queued =
        λ m z. omega (arith, inv.queued (ap measured at) (omega (arith, z, ap own at)), ap left at);
    enough = omega arith;
    stopped = λ sc m st. omega (arith, inv.stopped sc (ap measured at) st, ap own at);
    seen = λ pk'. omega (arith, inv.seen (ap is_peeking at), ap held at);
    total = omega (arith, inv.total);
    none_waits = λ qt'. refl;
    held_ready = omega arith;
    held_running = omega arith;
  }

  pub reads-Inv :
      {s : System q} (cnt c : ℕ)
      → Inv law scheduled s
      → s.pc ≡ reading
      → wait_eventfd s.eventfd ≡ some (cnt, c)
      → Inv law scheduled (record s { eventfd = c; pc = if wake_by_cqe cnt then peeking else head })
  reads-Inv {s} cnt c inv at e =
      let zero_now : c ≡ 0 = ground (arith, e) in
      let all : cnt ≡ s.eventfd = ground (arith, e) in
      let seen = inv.seen (ap is_peeking at) in
      elim (Bool-cases (wake_by_cqe cnt)) [
        | inl y ↦ rw y (record {
          queued = λ m z. absurd (ground (arith, m));
          enough = omega arith;
          stopped = λ sc m st. absurd (ground (arith, m));
          seen = λ pk'. absurd (ground (arith, pk'));
          total = inv.total;
          none_waits = λ qt'. inv.none_waits (ap quiet at);
          held_ready = omega arith;
          held_running = omega arith;
        })
        | inr y ↦ rw y (record {
          queued = λ m z. absurd (ground (arith, m));
          enough = omega arith;
          stopped = λ sc m st. absurd (ground (arith, m));
          seen = λ pk'. ground (arith, seen, ap held at, zero_now, all, y, wake_by_cqe_lem cnt);
          total = inv.total;
          none_waits = λ qt'. absurd (ground (arith, qt'));
          held_ready = omega arith;
          held_running = omega arith;
        })
      ]

  pub peeks-Inv :
      {s : System q} (num : ℕ)
      → Inv law scheduled s
      → s.pc ≡ peeking
      → num ≡ peek_num s.cq s.num_io_running
      → Inv law scheduled (record s { pc = handling num num })
  peeks-Inv {s} num inv at e =
      let all : num ≡ s.cq = ground (arith, e, inv.total, inv.none_waits (ap quiet at)) in
      record {
        queued = λ m z. absurd (ground (arith, m));
        enough = omega arith;
        stopped = λ sc m st. absurd (ground (arith, m));
        seen = λ pk'. omega (arith, all);
        total = inv.total;
        none_waits = λ qt'. absurd (ground (arith, qt'));
        held_ready = omega (arith, all);
        held_running = omega (arith, all, inv.total, inv.none_waits (ap quiet at));
      }

  pub handled-Inv :
      {s : System q} (num : ℕ)
      → Inv law scheduled s
      → s.pc ≡ handling 0 num
      → Inv law scheduled
          (record s { cq = s.cq - num; num_io_running = s.num_io_running - num; pc = head })
  handled-Inv {s} num inv at = record {
    queued = λ m z. absurd (ground (arith, m));
    enough = omega arith;
    stopped = λ sc m st. absurd (ground (arith, m));
    seen = λ pk'. omega (arith, inv.seen (ap is_peeking at), ap held at);
    total = omega (arith, inv.total, inv.held_ready, inv.held_running, ap held at);
    none_waits = λ qt'. absurd (ground (arith, qt'));
    held_ready = omega arith;
    held_running = omega arith;
  }

  -- A coroutine fills entries, or the kernel takes some.
  pub entries-Inv :
      {s : System q} (wait sq inflight : ℕ)
      → Inv law scheduled s
      → acts s.pc ≡ true
      → s.num_io_wait_submit + sq + inflight ≡ wait + s.sq + s.inflight
      → Inv law scheduled (record s { num_io_wait_submit = wait; sq = sq; inflight = inflight })
  entries-Inv {s} wait sq inflight inv a e = record {
    queued = inv.queued;
    enough = inv.enough;
    stopped = inv.stopped;
    seen = inv.seen;
    total = omega (arith, inv.total, e);
    none_waits = λ qt'. absurd (ground (arith, (acts_lem s.pc a).1, qt'));
    held_ready = inv.held_ready;
    held_running = inv.held_running;
  }
