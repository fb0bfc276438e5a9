-- ===== src/Wakeup/Invariant/Thread.antt =====
-- The other steps of the thread keep the invariant.
use sheepcoro.Base.{ℕ, suc, ◌≤◌, ◌≡◌, ap, ◌∙◌, Bool, true, false, some, arith}
use sheepcoro.Engine.{Handle, TaskQueue, IsTaskQueue}
use sheepcoro.Wakeup.{wake_up, Pc, head, working, running, stopping, writing, acts}
use sheepcoro.Wakeup.System.{System}
use sheepcoro.Wakeup.Invariant.Defs.{
  measured, left, held, own, is_peeking, quiet, woken_count, acts_lem, Inv, pushed_size,
  popped_size,
}

module _ {q : TaskQueue} (law : IsTaskQueue q) (scheduled : Bool) where
  -- A step that only moves the thread on.
  pub moves-Inv :
      {s : System q} (p p' : Pc)
      → Inv law scheduled s
      → s.pc ≡ p
      → (measured p' ≡ true → (measured p ≡ true) × (left p ≤ left p'))
      → left p' ≤ left p
      → own p ≡ 0
      → own p' ≡ 0
      → held p' ≡ held p
      → is_peeking p ≡ false
      → quiet p' ≡ false
      → Inv law scheduled (record s { pc = p' })
  moves-Inv {s} p p' inv e m l o o' h pk qt = record {
    queued = λ m' z.
        let fits = inv.queued (ap measured e ∙ (m m').0) (omega (arith, z, ap own e, o, o')) in
        omega (arith, (m m').1, fits, ap left e);
    enough = omega (arith, inv.enough, ap left e, l);
    stopped =
        λ sc m' st. omega (arith, inv.stopped sc (ap measured e ∙ (m m').0) st, ap own e, o, o');
    seen = λ pk'. omega (arith, inv.seen (ap is_peeking e ∙ pk), ap held e, h);
    total = inv.total;
    none_waits = λ qt'. absurd (ground (arith, qt, qt'));
    held_ready = omega (arith, inv.held_ready, ap held e, h);
    held_running = omega (arith, inv.held_running, ap held e, h);
  }

  pub works-Inv :
      {s : System q}
      → Inv law scheduled s
      → s.pc ≡ head
      → s.stop ≡ false
      → Inv law scheduled (record s { pc = working (q.was_size s.queue) })
  works-Inv {s} inv e goes = record {
    queued = λ m z. omega (arith, law.size s.queue);
    enough = omega (arith, law.size s.queue);
    stopped = λ sc m st. absurd (ground (arith, goes, st));
    seen = λ pk'. omega (arith, inv.seen (ap is_peeking e), ap held e);
    total = inv.total;
    none_waits = λ qt'. absurd (ground (arith, qt'));
    held_ready = omega arith;
    held_running = omega arith;
  }

  pub pops-Inv :
      {s : System q} (k : ℕ) (h : Handle) (t : q.State)
      → Inv law scheduled s
      → s.pc ≡ working (suc k)
      → q.pop s.queue ≡ some (h, t)
      → Inv law scheduled (record s { queue = t; pc = running k })
  pops-Inv {s} k h t inv at e =
      let one = popped_size law scheduled h s.queue t (omega (arith, inv.enough, ap left at)) e in
      record {
        queued = λ m z.
            omega
              (arith, one, inv.queued (ap measured at) (omega (arith, z, ap own at)), ap left at);
        enough = omega (arith, one, inv.enough, ap left at);
        stopped = λ sc m st. omega (arith, inv.stopped sc (ap measured at) st, ap own at);
        seen = λ pk'. omega (arith, inv.seen (ap is_peeking at), ap held at);
        total = inv.total;
        none_waits = λ qt'. absurd (ground (arith, qt'));
        held_ready = omega arith;
        held_running = omega arith;
      }

  pub submits-Inv :
      {s : System q} (h : Handle) (t : q.State)
      → Inv law scheduled s
      → acts s.pc ≡ true
      → q.try_push h s.queue ≡ (true, t)
      → Inv law scheduled (record s { queue = t; pc = writing s.pc })
  submits-Inv {s} h t inv a e = record {
    queued = λ m z. absurd (omega (arith, z));
    enough = omega (arith, inv.enough, pushed_size law scheduled h s.queue t e);
    stopped = λ sc m st. omega arith;
    seen = λ pk'. inv.seen (acts_lem s.pc a).0;
    total = inv.total;
    none_waits = λ qt'. absurd (ground (arith, (acts_lem s.pc a).1, qt'));
    held_ready = inv.held_ready;
    held_running = inv.held_running;
  }

  pub writes-Inv :
      {s : System q} (p : Pc) (c : ℕ)
      → Inv law scheduled s
      → s.pc ≡ writing p
      → wake_up s.eventfd ≡ some c
      → Inv law scheduled (record s { eventfd = c; pc = p })
  writes-Inv {s} p c inv at w =
      let (more, low) = woken_count s.eventfd c w in
      record {
        queued = λ m z. absurd (omega (arith, z, more));
        enough = omega (arith, inv.enough, ap left at);
        stopped = λ sc m st. omega (arith, more);
        seen = λ pk'. omega (arith, inv.seen (ap is_peeking at ∙ pk'), ap held at, low);
        total = inv.total;
        none_waits = λ qt'. inv.none_waits (ap quiet at ∙ qt');
        held_ready = omega (arith, inv.held_ready, ap held at);
        held_running = omega (arith, inv.held_running, ap held at);
      }

  -- The thread requests the stop itself.
  pub stops-Inv :
      {s : System q} (p : Pc)
      → Inv law scheduled s
      → s.pc ≡ stopping
      → (scheduled ≡ true → own p ≡ 1)
      → (left p ≡ 0) × (held p ≡ 0) × (measured p ≡ true) × (quiet p ≡ false)
      → Inv law scheduled (record s { stop = true; pc = p })
  stops-Inv {s} p inv at w (l, h, m, qt) = record {
    queued = λ m' z.
        omega (arith, inv.queued (ap measured at) (omega (arith, z, ap own at)), ap left at, l);
    enough = omega (arith, l);
    stopped = λ sc m' st. omega (arith, w sc);
    seen = λ pk'. omega (arith, inv.seen (ap is_peeking at), ap held at, h);
    total = inv.total;
    none_waits = λ qt'. absurd (ground (arith, qt, qt'));
    held_ready = omega (arith, h);
    held_running = omega (arith, h);
  }

  pub counts-Inv :
      {s : System q} (n : ℕ) → Inv law scheduled s → Inv law scheduled (record s { num_wait = n })
  counts-Inv {s} n inv = record {
    queued = inv.queued;
    enough = inv.enough;
    stopped = inv.stopped;
    seen = inv.seen;
    total = inv.total;
    none_waits = inv.none_waits;
    held_ready = inv.held_ready;
    held_running = inv.held_running;
  }
