-- ===== src/Mutex/Invariant/Locking.antt =====
-- The steps of `register_lock`, `try_lock` and `await_resume` keep the invariant.
use sheepcoro.Base.{◌≤◌, ◌≡◌, ◌≢◌, ap, true, false, Option, none, some, List, [], ◌∷◌, arith, count}
use sheepcoro.Awaiters.{Ptr, update}
use sheepcoro.Awaiters.Chain.{Chain-update, Chain-null}
use sheepcoro.Mutex.{
  Mutex, await_suspend, await_resume, register_load, locked, enqueued, again, register_cas,
  try_lock,
}
use sheepcoro.Mutex.System.{idle, registering, trying, suspended, woken, owner, System}
use sheepcoro.Mutex.Invariant.Defs.{Inv, top}

module _ {o : Option Ptr} {w r : List Ptr} {s : System} (inv : Inv o w r s) (i : Ptr) where
  open inv use {stack, queue, sleepers, holder, free, free_queue, tried, address, drains}

  pub suspend-Inv :
      2 ≤ i
      → s.pc i ≡ idle
      → Inv o w r (record { mutex = await_suspend i s.mutex; pc = update s.pc i registering })
  unfolding await_suspend
  suspend-Inv h e = record {
    stack = stack;
    queue = queue;
    sleepers = λ j. ground (arith, sleepers j);
    holder = λ j. ground (arith, holder j);
    free = free;
    free_queue = free_queue;
    tried = λ j seen p. ground (arith, tried j seen);
    address = λ j p. ground (arith, address j);
    drains = λ j p. ground (arith, drains j);
  }

  pub load-Inv :
      s.pc i ≡ registering
      → Inv o w r (record { mutex = register_load i s.mutex; pc = update s.pc i (trying s.state) })
  unfolding register_load
  load-Inv e = record {
    stack = ground (arith, sleepers i, Chain-update s.next (top s.state) i (top s.state) w);
    queue = ground (arith, sleepers i, Chain-update s.next s.resume_list_head i (top s.state) r);
    sleepers = λ j. ground (arith, sleepers j);
    holder = λ j. ground (arith, holder j);
    free = free;
    free_queue = free_queue;
    tried = λ j seen p. ground (arith, tried j seen);
    address = λ j p. ground (arith, address j, address i);
    drains = λ j p. ground (arith, drains j);
  }

  pub cas_locked-Inv :
      {seen : Ptr} (m : Mutex)
      → s.pc i ≡ trying seen
      → register_cas i seen s.mutex ≡ (locked, m)
      → Inv (some i) [] [] (record { mutex = m; pc = update s.pc i woken })
        × (o ≡ none)
        × (w ≡ [])
        × (r ≡ [])
  unfolding register_cas
  cas_locked-Inv {seen} m e c = (
    record {
      stack = ground arith;
      queue = ground arith;
      sleepers = λ j. ground (arith, sleepers j, ap (count j) no_newer, ap (count j) no_older);
      holder = λ j. ground (arith, holder j);
      free = ground arith;
      free_queue = ground arith;
      tried = λ j seen' p. ground (arith, tried j seen');
      address = λ j p. ground (arith, address j);
      drains = λ j p. ground (arith, holder j);
    },
    ground arith,
    no_newer,
    no_older,
  )
    where
      no_newer : w ≡ []
      no_newer = Chain-null s.next (top s.state) w stack (ground arith)

      no_older : r ≡ []
      no_older = Chain-null s.next s.resume_list_head r queue (ground arith)

  pub cas_enqueued-Inv :
      {seen : Ptr} (m : Mutex)
      → s.pc i ≡ trying seen
      → register_cas i seen s.mutex ≡ (enqueued, m)
      → Inv o (i ∷ w) r (record { mutex = m; pc = update s.pc i suspended }) × (o ≢ none)
  unfolding register_cas
  cas_enqueued-Inv {seen} m e c = (
    record {
      stack = ground (arith, sleepers i, tried i seen, address i);
      queue = ground arith;
      sleepers = λ j. ground (arith, sleepers j, sleepers i);
      holder = λ j. ground (arith, holder j);
      free = ground (arith, address i);
      free_queue = ground arith;
      tried = λ j seen' p. ground (arith, tried j seen');
      address = λ j p. ground (arith, address j);
      drains = λ j p. ground (arith, drains j, address i);
    },
    ground arith,
  )

  pub cas_again-Inv :
      {seen : Ptr} (m : Mutex)
      → s.pc i ≡ trying seen
      → register_cas i seen s.mutex ≡ (again, m)
      → Inv o w r (record { mutex = m; pc = update s.pc i registering })
  unfolding register_cas
  cas_again-Inv {seen} m e c = record {
    stack = ground arith;
    queue = ground arith;
    sleepers = λ j. ground (arith, sleepers j);
    holder = λ j. ground (arith, holder j);
    free = ground arith;
    free_queue = ground arith;
    tried = λ j seen' p. ground (arith, tried j seen');
    address = λ j p. ground (arith, address j, address i);
    drains = λ j p. ground (arith, drains j);
  }

  pub spurious-Inv :
      {seen : Ptr} → s.pc i ≡ trying seen → Inv o w r (record s { pc = update s.pc i registering })
  spurious-Inv {seen} e = record {
    stack = stack;
    queue = queue;
    sleepers = λ j. ground (arith, sleepers j);
    holder = λ j. ground (arith, holder j);
    free = free;
    free_queue = free_queue;
    tried = λ j seen' p. ground (arith, tried j seen');
    address = λ j p. ground (arith, address j, address i);
    drains = λ j p. ground (arith, drains j);
  }

  pub resume-Inv :
      s.pc i ≡ woken
      → Inv o w r (record { mutex = await_resume i s.mutex; pc = update s.pc i owner })
  unfolding await_resume
  resume-Inv e = record {
    stack = stack;
    queue = queue;
    sleepers = λ j. ground (arith, sleepers j);
    holder = λ j. ground (arith, holder j);
    free = free;
    free_queue = free_queue;
    tried = λ j seen p. ground (arith, tried j seen);
    address = λ j p. ground (arith, address j);
    drains = λ j p. ground (arith, drains j);
  }

  pub try_win-Inv :
      (m : Mutex)
      → s.pc i ≡ idle
      → try_lock s.mutex ≡ (true, m)
      → Inv (some i) [] [] (record { mutex = m; pc = update s.pc i owner })
        × (o ≡ none)
        × (w ≡ [])
        × (r ≡ [])
  unfolding try_lock
  try_win-Inv m e c = (
    record {
      stack = ground arith;
      queue = ground arith;
      sleepers = λ j. ground (arith, sleepers j, ap (count j) no_newer, ap (count j) no_older);
      holder = λ j. ground (arith, holder j);
      free = ground arith;
      free_queue = ground arith;
      tried = λ j seen' p. ground (arith, tried j seen');
      address = λ j p. ground (arith, address j);
      drains = λ j p. ground (arith, holder j);
    },
    ground arith,
    no_newer,
    no_older,
  )
    where
      no_newer : w ≡ []
      no_newer = Chain-null s.next (top s.state) w stack (ground arith)

      no_older : r ≡ []
      no_older = Chain-null s.next s.resume_list_head r queue (ground arith)

  pub try_lose-Inv :
      (m : Mutex) → try_lock s.mutex ≡ (false, m) → Inv o w r (record { mutex = m; pc = s.pc })
  unfolding try_lock
  try_lose-Inv m c = record {
    stack = ground arith;
    queue = ground arith;
    sleepers = sleepers;
    holder = holder;
    free = ground arith;
    free_queue = ground arith;
    tried = λ j seen' p. ground (arith, tried j seen');
    address = address;
    drains = λ j p. ground (arith, drains j);
  }
