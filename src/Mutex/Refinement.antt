-- ===== src/Mutex/Refinement.antt =====
-- A mutex behaves as a lock with a first-in first-out queue.
use sheepcoro.Base.{
  ℕ, ◌+◌, ◌≡◌, ◌≢◌, refl, count, true, sym, subst, Option, none, some, List, [], ◌∷◌, ◌++◌, reverse,
  arith,
}
use mathlib.Core.List.{reverse-cons, append_assoc, append-nil}
use sheepcoro.Awaiters.{Ptr, Awaiters, null, update}
use sheepcoro.Mutex.{
  fresh, Mutex, resume_first, unlock_drain, Round, locked, enqueued, again, register_cas,
}
use sheepcoro.Mutex.System.{
  System, Step, idle, suspend, load, cas, spurious, resume, try_win, try_lose, unlock_next,
  unlock_free, unlock_busy, drain, after_cas, trying, woken, draining, owner, Reach, start, later,
}
use sheepcoro.Mutex.Invariant.{
  Inv, holds, suspend-Inv, load-Inv, cas_locked-Inv, cas_enqueued-Inv, cas_again-Inv, spurious-Inv,
  resume-Inv, try_win-Inv, try_lose-Inv, unlock_next-Inv, unlock_free-Inv, unlock_busy-Inv,
  drain-Drained,
}
use sheepcoro.Mutex.Submits.{woken_by, Step-submits}

-- The abstract lock: who holds it, and who waits, the longest waiter first.
pub record Lock : Type 0 where
  pub holder : Option Ptr
  pub queue : List Ptr

abbrev pub lock : Option Ptr → List Ptr → Lock
lock o q = record { holder = o; queue = q }

-- What a step may do to it: nobody takes a lock that is held, a new waiter goes to the end, and
-- the holder gives the lock to the longest waiter, or frees it if there is none.
pub data Fifo : Lock → Lock → Type 0 where
  nothing : {l : Lock} → Fifo l l
  acquire : (i : Ptr) → Fifo (lock none []) (lock (some i) [])
  enqueue :
      (i : Ptr) {h : Ptr} {q : List Ptr} → Fifo (lock (some h) q) (lock (some h) (q ++ i ∷ []))
  hand_over : (i : Ptr) {x : Ptr} {q : List Ptr} → Fifo (lock (some i) (x ∷ q)) (lock (some x) q)
  release : (i : Ptr) → Fifo (lock (some i) []) (lock none [])

-- The waiters stand in the resume list, and behind them in the stack, which is newest first.
pub record Represents (l : Lock) (s : System) : Type 0 where
  pub newer : List Ptr
  pub older : List Ptr
  pub inv : Inv l.holder newer older s
  pub order : l.queue ≡ older ++ reverse newer

-- A step of the system as a step of the abstract lock.
pub record Refined (l : Lock) (t : System) : Type 0 where
  pub after : Lock
  pub represents : Represents after t
  pub fifo : Fifo l after

abbrev lock_of : Option Ptr → List Ptr → List Ptr → Lock
lock_of o w r = lock o (r ++ reverse w)

abbrev by_inv :
    {o : Option Ptr} {w r : List Ptr} {t : System} {l : Lock}
    → Inv o w r t
    → Fifo l (lock_of o w r)
    → Refined l t
by_inv {o} {w} {r} inv f = record {
  after = lock_of o w r;
  represents = record { newer = w; older = r; inv = inv; order = refl };
  fifo = f;
}

-- The steps of `i` in `unlock` are those of the holder.
is_holder :
    (o : Option Ptr) {w r : List Ptr} {s : System}
    → Inv o w r s
    → (i : Ptr) → holds (s.pc i) ≡ true
    → o ≡ some i
is_holder none inv i h = ground (arith, inv.holder i)
is_holder (some x) inv i h = ground (arith, inv.holder i)

acquire_empty :
    {o : Option Ptr} {w r : List Ptr} (i : Ptr)
    → o ≡ none
    → w ≡ []
    → r ≡ []
    → Fifo (lock_of o w r) (lock_of (some i) [] [])
acquire_empty i a b c = rw (a, b, c) (acquire i)

cas-refines :
    (o : Option Ptr) {w r : List Ptr} {s : System}
    → Inv o w r s
    → (i : Ptr) {seen : Ptr} (k : Round) (m : Mutex) → s.pc i ≡ trying seen
    → register_cas i seen s.mutex ≡ (k, m)
    → Refined (lock_of o w r) (record { mutex = m; pc = update s.pc i (after_cas k) })
cas-refines o inv i locked m e c =
    let (inv', a, b, d) = cas_locked-Inv inv i m e c in by_inv inv' (acquire_empty i a b d)
cas-refines none inv i enqueued m e c = absurd ((cas_enqueued-Inv inv i m e c).1 refl)
cas-refines (some h) {w} {r} inv i enqueued m e c =
    by_inv (cas_enqueued-Inv inv i m e c).0
      (rw (reverse-cons i w, ← append_assoc) (enqueue i {h = h}))
cas-refines o inv i again m e c = by_inv (cas_again-Inv inv i m e c) nothing

unlock_next-refines :
    {o : Option Ptr} {w : List Ptr} (r : List Ptr) {s : System}
    → Inv o w r s
    → (i : Ptr) → s.pc i ≡ owner
    → s.resume_list_head ≢ null
    → Refined (lock_of o w r) (record {
      mutex = resume_first s.resume_list_head s.mutex;
      pc = update (update s.pc i idle) s.resume_list_head woken;
    })
unlock_next-refines [] inv i e h = absurd (h inv.queue)
unlock_next-refines (x ∷ r) inv i e h =
    by_inv (unlock_next-Inv i inv e) (rw (is_holder _ inv i (rw e)) (hand_over i))

drain-refines :
    {o : Option Ptr} (w r : List Ptr) {s : System}
    → Inv o w r s
    → (i : Ptr) (fuel : ℕ) (head : Ptr) (m : Mutex) → s.pc i ≡ draining
    → unlock_drain fuel s.mutex ≡ some (head, m)
    → Refined (lock_of o w r) (record { mutex = m; pc = update (update s.pc i idle) head woken })
drain-refines w (y ∷ r) inv i fuel head m e c = absurd (ground (arith, inv.queue, inv.drains i))
drain-refines [] [] inv i fuel head m e c =
    absurd (ground (arith, inv.stack, inv.drains i, inv.holder i, inv.free))
drain-refines (x ∷ w) [] inv i fuel head m e c =
    let d = drain-Drained inv i e fuel head m c in
    by_inv d.after (rw (d.order, append-nil, is_holder _ inv i (rw e)) (hand_over i))

step-refines :
    {o : Option Ptr} {w r : List Ptr} {s t : System}
    → Inv o w r s
    → Step s t
    → Refined (lock_of o w r) t
step-refines inv (suspend i h e) = by_inv (suspend-Inv inv i h e) nothing
step-refines inv (load i e) = by_inv (load-Inv inv i e) nothing
step-refines inv (cas i k m e c) = cas-refines _ inv i k m e c
step-refines inv (spurious i e) = by_inv (spurious-Inv inv i e) nothing
step-refines inv (resume i e) = by_inv (resume-Inv inv i e) nothing
step-refines inv (try_win i m e c) =
    let (inv', a, b, d) = try_win-Inv inv i m e c in by_inv inv' (acquire_empty i a b d)
step-refines inv (try_lose i m e c) = by_inv (try_lose-Inv inv i m c) nothing
step-refines {w} {r} inv (unlock_next i e h) = unlock_next-refines r inv i e h
step-refines inv (unlock_free i m e h c) =
    let (inv', a, b) = unlock_free-Inv inv i m e h c in
    by_inv inv' (rw (a, b, is_holder _ inv i (rw e)) (release i))
step-refines inv (unlock_busy i m e h c) = by_inv (unlock_busy-Inv inv i m e h c) nothing
step-refines {w} {r} inv (drain i fuel head m e c) = drain-refines w r inv i fuel head m e c

-- Every step of every coroutine, on any number of threads, is a step of the abstract lock or leaves
-- it as it is, and submits a coroutine once where it wakes it from its suspension, and no other.
pub Step-Fifo :
    {l : Lock} {s t : System}
    → Represents l s
    → Step s t
    → Refined l t
      × ((j : Ptr) → count j t.submitted ≡ count j s.submitted + woken_by (s.pc j) (t.pc j))
Step-Fifo {l} {t} rep st = (
  subst (λ q. Refined (lock l.holder q) t) (sym rep.order) (step-refines rep.inv st),
  λ j. Step-submits j rep.inv st,
)

-- A new mutex is free and has no waiter.
pub fresh-Represents :
    (h : Awaiters) → Represents (lock none []) (record { mutex = fresh h; pc = λ _. idle })
fresh-Represents h = record {
  newer = [];
  older = [];
  inv = record {
    stack = refl;
    queue = refl;
    sleepers = λ j. refl;
    holder = λ j. refl;
    free = refl;
    free_queue = λ e. refl;
    tried = λ j seen p. cc;
    address = λ j p. cc;
    drains = λ j p. cc;
  };
  order = refl;
}

-- So every reachable state stands for some abstract lock.
pub Reach-Represents : {h : Awaiters} {s : System} → Reach h s → (l : Lock) × Represents l s
Reach-Represents {h} start = (lock none [], fresh-Represents h)
Reach-Represents (later r st) =
    let (l, rep) = Reach-Represents r in let f = (Step-Fifo rep st).0 in (f.after, f.represents)
