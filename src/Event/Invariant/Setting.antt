-- ===== src/Event/Invariant/Setting.antt =====
-- The steps of a setter keep the invariant.
use sheepcoro.Base.{◌≡◌, ◌≢◌, Option, none, some, List, [], ◌∷◌, arith, count-append}
use sheepcoro.Awaiters.{Ptr, null, update, submit_task}
use sheepcoro.Event.{this, Event, set_exchange}
use sheepcoro.Event.System.{idle, woken, walking, advancing, System}
use sheepcoro.Event.Invariant.Defs.{Inv}

module _ {o : Option Ptr} {head : Ptr} {w : List Ptr} {s : System} (inv : Inv o head w s)
    (i : Ptr) where
  open inv use {chain, unset, done, sleepers, walker, cursor, behind, passed, tried, address, once}

  -- The event was set before.
  pub set_again-Inv :
      (flag : Ptr) (e : Event)
      → s.pc i ≡ idle
      → set_exchange s.event ≡ (flag, e)
      → flag ≡ this
      → Inv o head w (record { event = e; pc = update s.pc i idle })
  unfolding set_exchange
  set_again-Inv flag e at ret h = record {
    chain = ground arith;
    unset = λ p. ground (arith, unset);
    done = λ p q. ground (arith, done);
    sleepers = λ j. ground (arith, sleepers j);
    walker = λ j. ground (arith, walker j);
    cursor = λ j c p. ground (arith, cursor j c);
    behind = λ j c p. ground (arith, behind j c);
    passed = λ j c p. ground (arith, passed j c);
    tried = λ j v p. ground (arith, tried j v);
    address = λ j p. ground (arith, address j);
    once = λ j. ground (arith, once j);
  }

  -- The first setter takes over the stack.
  pub set_first-Inv :
      (flag : Ptr) (e : Event)
      → s.pc i ≡ idle
      → set_exchange s.event ≡ (flag, e)
      → flag ≢ this
      → Inv (some i) flag w (record { event = e; pc = update s.pc i (walking flag) })
  unfolding set_exchange
  set_first-Inv flag e at ret h = record {
    chain = ground (arith, unset);
    unset = λ p. ground (arith, unset);
    done = λ p q. ground (arith, done);
    sleepers = λ j. ground (arith, sleepers j);
    walker = λ j. ground (arith, walker j, unset);
    cursor = λ j c p. ground (arith, walker j, unset);
    behind = λ j c p. ground (arith, walker j, unset);
    passed = λ j c p. ground (arith, passed j c);
    tried = λ j v p. ground (arith, tried j v);
    address = λ j p. ground (arith, address j);
    once = λ j. ground (arith, once j);
  }

  pub walk_end-Inv : s.pc i ≡ walking null → Inv none head w (record s { pc = update s.pc i idle })
  walk_end-Inv at = record {
    chain = ground arith;
    unset = λ p. ground (arith, unset);
    done = λ p q. ground (arith, cursor i null);
    sleepers = λ j. ground (arith, sleepers j);
    walker = λ j. ground (arith, walker j, walker i);
    cursor = λ j c p. ground (arith, walker j, walker i);
    behind = λ j c p. ground (arith, walker j, walker i);
    passed = λ j c p. ground (arith, passed j c);
    tried = λ j v p. ground (arith, tried j v);
    address = λ j p. ground (arith, address j);
    once = λ j. ground (arith, once j);
  }

  pub advance-Inv :
      {c : Ptr}
      → s.pc i ≡ advancing c
      → Inv o head w (record s { pc = update s.pc i (walking (s.next c)) })
  advance-Inv {c} at = record {
    chain = ground arith;
    unset = λ p. ground (arith, unset);
    done = λ p q. ground (arith, done);
    sleepers = λ j. ground (arith, sleepers j);
    walker = λ j. ground (arith, walker j);
    cursor = λ j c' p. ground (arith, cursor j c', behind i c);
    behind = λ j c' p. ground (arith, behind j c');
    passed = λ j c' p. ground (arith, passed j c');
    tried = λ j v p. ground (arith, tried j v);
    address = λ j p. ground (arith, address j);
    once = λ j. ground (arith, once j);
  }

module _ {o : Option Ptr} {head x : Ptr} {xs : List Ptr} {s : System} (inv : Inv o head (x ∷ xs) s)
    (k : Ptr) where
  open inv use {chain, unset, done, sleepers, walker, cursor, behind, passed, tried, address, once}

  -- The setter submits the first awaiter of its list.
  pub walk-Inv :
      s.pc k ≡ walking x
      → Inv o (s.next x) xs (record {
        event = record s.event { awaiters = submit_task x s.awaiters };
        pc = update (update s.pc k (advancing x)) x woken;
      })
  unfolding submit_task
  walk-Inv at = record {
    chain = ground arith;
    unset = λ p. ground (arith, unset, walker k);
    done = λ p q. ground (arith, walker k);
    sleepers = λ j. ground (arith, sleepers j, sleepers k);
    walker = λ j. ground (arith, walker j, sleepers j, walker k);
    cursor = λ j c p. ground (arith, walker j, walker k, sleepers j);
    behind = λ j c p. ground (arith, walker j, walker k);
    passed = λ j c p. ground (arith, passed j c);
    tried = λ j v p. ground (arith, tried j v);
    address = λ j p. ground (arith, address j);
    once = λ j. ground (arith, once j, count-append j s.submitted (x ∷ []), sleepers j, sleepers k);
  }
