-- ===== src/CondVar/Invariant/Locking.antt =====
-- The steps of the mutex keep the invariant.
use sheepcoro.Base.{
  ◌≤◌, ◌≡◌, refl, Bool, true, false, Option, none, some, List, [], ◌∷◌, ◌++◌, arith, count-append,
}
use sheepcoro.Awaiters.{Ptr, update}
use sheepcoro.Mutex.Refinement.{lock}
use sheepcoro.CondVar.System.{Pc, idle, locking, given, owner, System, pass, granted}
use sheepcoro.CondVar.Invariant.Defs.{waits, has, in_wait, Inv}

module _ {S : Type 0} {cond : Ptr → Option (S → Bool)} {w : List Ptr} {s : System S}
    (inv : Inv cond w s) (i : Ptr) where
  open inv use {list, located, plain, holder, free, kept, address}

  pub lock_free-Inv :
      s.pc i ≡ idle
      → s.mutex.holder ≡ none
      → Inv cond w (record s { mutex = lock (some i) s.mutex.queue; pc = update s.pc i owner })
  lock_free-Inv at f = record {
    list = list;
    located = λ j. ground (arith, located j);
    plain = λ j p. ground (arith, plain j);
    holder = λ j. ground (arith, holder j);
    free = λ p. cc;
    kept = λ j p. ground (arith, kept j);
    address = λ j p. ground (arith, address j);
  }

  pub lock_busy-Inv :
      (h : Ptr)
      → 2 ≤ i
      → s.pc i ≡ idle
      → s.mutex.holder ≡ some h
      → Inv cond w
          (record s { mutex = lock (some h) (s.mutex.queue ++ i ∷ []); pc = update s.pc i locking })
  lock_busy-Inv h small at f = record {
    list = list;
    located = λ j. ground (arith, located j, located i, count-append j s.mutex.queue (i ∷ []));
    plain = λ j p. ground (arith, plain j, located i);
    holder = λ j. ground (arith, holder j);
    free = λ p. cc;
    kept = λ j p. ground (arith, kept j);
    address = λ j p. ground (arith, address j);
  }

  pub lock_return-Inv : s.pc i ≡ given → Inv cond w (record s { pc = update s.pc i owner })
  lock_return-Inv at = record {
    list = list;
    located = λ j. ground (arith, located j);
    plain = λ j p. ground (arith, plain j);
    holder = λ j. ground (arith, holder j);
    free = free;
    kept = λ j p. ground (arith, kept j);
    address = λ j p. ground (arith, address j);
  }

  -- Nobody is between registering and unlocking while the owner writes.
  pub writes-Inv : (v : S) → s.pc i ≡ owner → Inv cond w (record s { shared = v })
  writes-Inv v at = record {
    list = list;
    located = located;
    plain = plain;
    holder = holder;
    free = free;
    kept = λ j p. absurd (ground (arith, holder i, holder j));
    address = address;
  }

  -- The holder gives up the mutex, and stands at `to` then.
  pub pass-Inv :
      (to : Pc) (q : List Ptr)
      → q ≡ s.mutex.queue
      → has (s.pc i) ≡ true
      → waits to ≡ waits (s.pc i)
      → has to ≡ false
      → (to ≡ locking → ⊥)
      → (in_wait to ≡ true → 2 ≤ i)
      → Inv cond w (record s { mutex = pass q; pc = granted q (update s.pc i to) })
  pass-Inv to [] y at same gone not_lock small = record {
    list = list;
    located = λ j. ground (arith, located j, y);
    plain = λ j p. ground (arith, plain j);
    holder = λ j. ground (arith, holder j, holder i);
    free = λ p. refl;
    kept = λ j p. ground (arith, kept j);
    address = λ j p. ground (arith, address j);
  }
  pass-Inv to (x ∷ q) y at same gone not_lock small = record {
    list = list;
    located = λ j. ground (arith, located j, located x, y);
    plain = λ j p. ground (arith, plain j);
    holder = λ j. ground (arith, holder j, holder i);
    free = λ p. cc;
    kept = λ j p. ground (arith, kept j);
    address = λ j p. ground (arith, address j, address x, located x, y);
  }
