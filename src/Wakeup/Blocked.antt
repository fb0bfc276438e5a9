-- ===== src/Wakeup/Blocked.antt =====
-- Where a context's thread waits for ever.
use sheepcoro.Base.{suc, ◌+◌, ◌-◌, ◌≡◌, refl, ap, true, false, arith}
use sheepcoro.Engine.{TaskQueue}
use sheepcoro.Wakeup.{stopping, reading}
use sheepcoro.Wakeup.System.{
  System, Step, pushes, requests_stop, wakes, completes, signals, leaves, deinits, works, pops,
  suspends, worked, checks, looks, stops_itself, goes_idle, stops_all, writes, submits, counts,
  adds_io, frees_entries, submits_io, reads, peeks, handles, handled, Reach, later,
}

module _ {q : TaskQueue} where
  -- The state in which the default stop callback and the poll_work after it leave the thread.
  abbrev pub asleep : System q → System q
  asleep s = record s {
    stop = true;
    num_io_running = s.num_io_running + s.num_io_wait_submit;
    num_io_wait_submit = 0;
    sq = s.sq - 0;
    inflight = s.inflight + 0;
    pc = reading;
  }

  -- With the stop callback of `start`, a thread at that callback whose eventfd has the count 0, with
  -- no wake-up, signal or operation on its way, comes to wait in wait_eventfd with the stop requested;
  -- and any step from there leaves it waiting, and is another thread's push or request to stop.
  pub stays_asleep :
      {s t : System q}
      → Reach q false s
      → s.pc ≡ stopping
      → s.eventfd ≡ 0
      → s.owed ≡ 0
      → s.owed_signals ≡ 0
      → s.inflight ≡ 0
      → Step q false (asleep s) t
      → Reach q false (asleep s)
        × (t.pc ≡ reading)
        × (t.stop ≡ true)
        × (t.eventfd ≡ 0)
        × (t.owed ≡ 1)
  stays_asleep {s} {t} r at zero_count zero_owed zero_signals zero_flight st =
      let (p, b, c, o) = stays st in
      (later (later r (stops_itself refl at)) (submits_io 0 refl (omega arith)), p, b, c, o)
    where
      stays :
          {u : System q}
          → Step q false (asleep s) u
          → (u.pc ≡ reading) × (u.stop ≡ true) × (u.eventfd ≡ 0) × (u.owed ≡ 1)
      stays (pushes h t e) = (refl, refl, zero_count, ap suc zero_owed)
      stays requests_stop = (refl, refl, zero_count, ap suc zero_owed)
      stays (wakes n c e _ w) = absurd (omega (arith, e, zero_owed))
      stays (completes n e) = absurd (omega (arith, e, zero_flight))
      stays (signals n e few) = absurd (omega (arith, e, zero_signals))
      stays (leaves at' _) = absurd (ground (arith, at'))
      stays (deinits at') = absurd (ground (arith, at'))
      stays (works at' goes) = absurd (ground (arith, at'))
      stays (pops k h t at' e) = absurd (ground (arith, at'))
      stays (suspends k at') = absurd (ground (arith, at'))
      stays (worked at') = absurd (ground (arith, at'))
      stays (checks at') = absurd (ground (arith, at'))
      stays (looks at') = absurd (ground (arith, at'))
      stays (stops_itself sc at') = absurd (ground (arith, at'))
      stays (goes_idle _ at') = absurd (ground (arith, at'))
      stays (stops_all _ at') = absurd (ground (arith, at'))
      stays (writes p c at' w) = absurd (ground (arith, at'))
      stays (submits h t a e) = absurd (ground (arith, a))
      stays (counts n a) = absurd (ground (arith, a))
      stays (adds_io a) = absurd (ground (arith, a))
      stays (frees_entries n a few) = absurd (ground (arith, a))
      stays (submits_io n at' few) = absurd (ground (arith, at'))
      stays (reads cnt c at' e) = absurd (ground (arith, zero_count, e))
      stays (peeks num at' e) = absurd (ground (arith, at'))
      stays (handles k num at') = absurd (ground (arith, at'))
      stays (handled num at') = absurd (ground (arith, at'))
