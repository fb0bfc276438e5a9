-- ===== src/Event/Invariant/Waiting.antt =====
-- The steps of a coroutine that waits keep the invariant.
use sheepcoro.Base.{◌≤◌, ◌≡◌, ◌≢◌, Bool, true, false, Option, none, some, List, ◌∷◌, arith}
use sheepcoro.Awaiters.{Ptr, null, update}
use sheepcoro.Awaiters.Chain.{Chain-update}
use sheepcoro.Event.{Event, await_ready, await_resume, register_load, register_cas}
use sheepcoro.Event.System.{
  idle, registering, trying, suspended, ready, woken, finished, advancing, System, after_ready,
}
use sheepcoro.Event.Invariant.Defs.{Inv}

module _ {o : Option Ptr} {head : Ptr} {w : List Ptr} {s : System} (inv : Inv o head w s)
    (i : Ptr) where
  open inv use {chain, unset, done, sleepers, walker, cursor, behind, passed, tried, address, once}

  pub ready_test-Inv :
      (b : Bool) (e : Event)
      → 2 ≤ i
      → s.pc i ≡ idle
      → await_ready i s.event ≡ (b, e)
      → Inv o head w (record { event = e; pc = update s.pc i (after_ready b) })
  unfolding await_ready
  ready_test-Inv true e h at ret = record {
    chain = ground arith;
    unset = λ p. ground (arith, unset);
    done = λ p q. ground (arith, done);
    sleepers = λ j. ground (arith, sleepers j);
    walker = λ j. ground (arith, walker j);
    cursor = λ j c p. ground (arith, cursor j c);
    behind = λ j c p. ground (arith, behind j c);
    passed = λ j c p. ground (arith, passed j c);
    tried = λ j v p. ground (arith, tried j v);
    address = λ j p. ground (arith, address j);
    once = λ j. ground (arith, once j);
  }
  ready_test-Inv false e h at ret = record {
    chain = ground arith;
    unset = λ p. ground (arith, unset);
    done = λ p q. ground (arith, done);
    sleepers = λ j. ground (arith, sleepers j);
    walker = λ j. ground (arith, walker j);
    cursor = λ j c p. ground (arith, cursor j c);
    behind = λ j c p. ground (arith, behind j c);
    passed = λ j c p. ground (arith, passed j c);
    tried = λ j v p. ground (arith, tried j v);
    address = λ j p. ground (arith, address j);
    once = λ j. ground (arith, once j);
  }

  pub load_set-Inv :
      (e : Event)
      → s.pc i ≡ registering
      → register_load i s.event ≡ (none, e)
      → Inv o head w (record { event = e; pc = update s.pc i ready })
  unfolding register_load
  load_set-Inv e at ret = record {
    chain = ground (arith, sleepers i, Chain-update s.next head i null w);
    unset = λ p. ground (arith, unset);
    done = λ p q. ground (arith, done);
    sleepers = λ j. ground (arith, sleepers j);
    walker = λ j. ground (arith, walker j);
    cursor = λ j c p. ground (arith, cursor j c);
    behind = λ j c p. ground (arith, behind j c, passed j c);
    passed = λ j c p. ground (arith, passed j c);
    tried = λ j v p. ground (arith, tried j v);
    address = λ j p. ground (arith, address j);
    once = λ j. ground (arith, once j);
  }

  pub load-Inv :
      (v : Ptr) (e : Event)
      → s.pc i ≡ registering
      → register_load i s.event ≡ (some v, e)
      → Inv o head w (record { event = e; pc = update s.pc i (trying v) })
  unfolding register_load
  load-Inv v e at ret = record {
    chain = ground (arith, sleepers i, Chain-update s.next head i s.state w);
    unset = λ p. ground (arith, unset);
    done = λ p q. ground (arith, done);
    sleepers = λ j. ground (arith, sleepers j);
    walker = λ j. ground (arith, walker j);
    cursor = λ j c p. ground (arith, cursor j c);
    behind = λ j c p. ground (arith, behind j c, passed j c);
    passed = λ j c p. ground (arith, passed j c);
    tried = λ j v' q. ground (arith, tried j v');
    address = λ j q. ground (arith, address j, address i);
    once = λ j. ground (arith, once j);
  }

  pub cas_lose-Inv :
      {v : Ptr} (e : Event)
      → s.pc i ≡ trying v
      → register_cas i v s.event ≡ (false, e)
      → Inv o head w (record { event = e; pc = update s.pc i registering })
  unfolding register_cas
  cas_lose-Inv {v} e at ret = record {
    chain = ground arith;
    unset = λ p. ground (arith, unset);
    done = λ p q. ground (arith, done);
    sleepers = λ j. ground (arith, sleepers j);
    walker = λ j. ground (arith, walker j);
    cursor = λ j c p. ground (arith, cursor j c);
    behind = λ j c p. ground (arith, behind j c);
    passed = λ j c p. ground (arith, passed j c);
    tried = λ j v p. ground (arith, tried j v);
    address = λ j q. ground (arith, address j, address i);
    once = λ j. ground (arith, once j);
  }

  pub cas_win-Inv :
      {v : Ptr} (e : Event)
      → s.pc i ≡ trying v
      → register_cas i v s.event ≡ (true, e)
      → Inv o i (i ∷ w) (record { event = e; pc = update s.pc i suspended })
  unfolding register_cas
  cas_win-Inv {v} e at ret = record {
    chain = ground (arith, tried i v, address i, unset);
    unset = λ q. ground (arith, unset, tried i v);
    done = λ q r. ground (arith, address i);
    sleepers = λ j. ground (arith, sleepers j, sleepers i);
    walker = λ j. ground (arith, walker j);
    cursor = λ j c' q. ground (arith, walker j, unset, tried i v);
    behind = λ j c' q. ground (arith, walker j, unset, tried i v);
    passed = λ j c p. ground (arith, passed j c);
    tried = λ j v p. ground (arith, tried j v);
    address = λ j p. ground (arith, address j);
    once = λ j. ground (arith, once j);
  }

  pub spurious-Inv :
      {v : Ptr} → s.pc i ≡ trying v → Inv o head w (record s { pc = update s.pc i registering })
  spurious-Inv {v} at = record {
    chain = ground arith;
    unset = λ p. ground (arith, unset);
    done = λ p q. ground (arith, done);
    sleepers = λ j. ground (arith, sleepers j);
    walker = λ j. ground (arith, walker j);
    cursor = λ j c p. ground (arith, cursor j c);
    behind = λ j c p. ground (arith, behind j c);
    passed = λ j c p. ground (arith, passed j c);
    tried = λ j v p. ground (arith, tried j v);
    address = λ j q. ground (arith, address j, address i);
    once = λ j. ground (arith, once j);
  }

  pub resume_ready-Inv :
      s.pc i ≡ ready
      → Inv o head w
          (record { event = await_resume i s.event; pc = update s.pc i (finished false) })
  unfolding await_resume
  resume_ready-Inv at = record {
    chain = ground arith;
    unset = λ p. ground (arith, unset);
    done = λ p q. ground (arith, done);
    sleepers = λ j. ground (arith, sleepers j);
    walker = λ j. ground (arith, walker j);
    cursor = λ j c p. ground (arith, cursor j c);
    behind = λ j c p. ground (arith, behind j c);
    passed = λ j c p. ground (arith, passed j c);
    tried = λ j v p. ground (arith, tried j v);
    address = λ j p. ground (arith, address j);
    once = λ j. ground (arith, once j);
  }

  pub resume_woken-Inv :
      s.pc i ≡ woken
      → Inv o head w (record { event = await_resume i s.event; pc = update s.pc i (finished true) })
  unfolding await_resume
  resume_woken-Inv at = record {
    chain = ground arith;
    unset = λ p. ground (arith, unset);
    done = λ p q. ground (arith, done);
    sleepers = λ j. ground (arith, sleepers j);
    walker = λ j. ground (arith, walker j);
    cursor = λ j c p. ground (arith, cursor j c);
    behind = λ j c p. ground (arith, behind j c);
    passed = λ j c p. ground (arith, passed j c);
    tried = λ j v p. ground (arith, tried j v);
    address = λ j p. ground (arith, address j);
    once = λ j. ground (arith, once j);
  }

  -- Its memory is reused while no setter is about to read its link.
  pub reuses-Inv :
      (v : Ptr) {b : Bool}
      → s.pc i ≡ finished b
      → ((k : Ptr) → s.pc k ≢ advancing i)
      → Inv o head w (record s {
        event = record s.event { awaiters = record s.event.awaiters { next = update s.next i v } };
      })
  reuses-Inv v at none_reads = record {
    chain = Chain-update s.next head i v w (ground (arith, sleepers i)) chain;
    unset = λ p. ground (arith, unset);
    done = λ p q. ground (arith, done);
    sleepers = λ j. ground (arith, sleepers j);
    walker = λ j. ground (arith, walker j);
    cursor = λ j c p. ground (arith, cursor j c);
    behind = λ j c p. ground (arith, behind j c, none_reads j);
    passed = λ j c p. ground (arith, passed j c);
    tried = λ j old p. ground (arith, tried j old);
    address = λ j p. ground (arith, address j);
    once = λ j. ground (arith, once j);
  }
