-- ===== src/Mutex/Invariant/Unlocking.antt =====
-- The steps of `unlock` keep the invariant.
use sheepcoro.Base.{◌≡◌, ap, true, false, Option, none, some, List, [], ◌∷◌, arith, count}
use sheepcoro.Awaiters.{Ptr, null, update}
use sheepcoro.Awaiters.Chain.{Chain-null}
use sheepcoro.Mutex.{Mutex, resume_first, unlock_cas}
use sheepcoro.Mutex.System.{idle, woken, owner, draining, System}
use sheepcoro.Mutex.Invariant.Defs.{Inv, top}

module _ {o : Option Ptr} {w : List Ptr} {s : System} (i : Ptr) where
  -- The lock goes to the first awaiter of the resume list.
  pub unlock_next-Inv :
      {x : Ptr} {r : List Ptr}
      → Inv o w (x ∷ r) s
      → s.pc i ≡ owner
      → Inv (some x) w r (record {
        mutex = resume_first s.resume_list_head s.mutex;
        pc = update (update s.pc i idle) s.resume_list_head woken;
      })
  unfolding resume_first
  unlock_next-Inv {x} {r} inv e = record {
    stack = stack;
    queue = ground arith;
    sleepers = λ j. ground (arith, sleepers j, sleepers i);
    holder = λ j. ground (arith, holder j, holder i, sleepers i);
    free = ground (arith, holder i);
    free_queue = ground arith;
    tried = λ j seen p. ground (arith, tried j seen);
    address = λ j p. ground (arith, address j);
    drains = λ j p. ground (arith, holder j, holder i);
  }
    where
      open inv use {stack, queue, sleepers, holder, free, free_queue, tried, address, drains}

module _ {o : Option Ptr} {w r : List Ptr} {s : System} (inv : Inv o w r s) (i : Ptr) where
  open inv use {stack, queue, sleepers, holder, free, free_queue, tried, address, drains}

  -- Nobody waits, and the mutex is free.
  pub unlock_free-Inv :
      (m : Mutex)
      → s.pc i ≡ owner
      → s.resume_list_head ≡ null
      → unlock_cas s.mutex ≡ (true, m)
      → Inv none [] [] (record { mutex = m; pc = update s.pc i idle }) × (w ≡ []) × (r ≡ [])
  unfolding unlock_cas
  unlock_free-Inv m e h c = (
    record {
      stack = ground arith;
      queue = ground arith;
      sleepers = λ j. ground (arith, sleepers j, ap (count j) no_newer, ap (count j) no_older);
      holder = λ j. ground (arith, holder j, holder i);
      free = ground arith;
      free_queue = ground arith;
      tried = λ j seen p. ground (arith, tried j seen);
      address = λ j p. ground (arith, address j);
      drains = λ j p. ground (arith, holder j, holder i);
    },
    no_newer,
    no_older,
  )
    where
      no_newer : w ≡ []
      no_newer = Chain-null s.next (top s.state) w stack (ground arith)

      no_older : r ≡ []
      no_older = Chain-null s.next s.resume_list_head r queue h

  pub unlock_busy-Inv :
      (m : Mutex)
      → s.pc i ≡ owner
      → s.resume_list_head ≡ null
      → unlock_cas s.mutex ≡ (false, m)
      → Inv o w r (record { mutex = m; pc = update s.pc i draining })
  unfolding unlock_cas
  unlock_busy-Inv m e h c = record {
    stack = ground arith;
    queue = ground arith;
    sleepers = λ j. ground (arith, sleepers j);
    holder = λ j. ground (arith, holder j);
    free = ground arith;
    free_queue = ground arith;
    tried = λ j seen p. ground (arith, tried j seen);
    address = λ j p. ground (arith, address j);
    drains = λ j p. ground (arith, drains j);
  }
