-- ===== src/CondVar/Invariant/Waiting.antt =====
-- The steps of the condition variable keep the invariant.
use sheepcoro.Base.{
  ◌+◌, ◌≤◌, ◌≡◌, subst, Bool, true, false, Option, none, some, List, [], ◌∷◌, ◌++◌, arith, ◌==◌,
  if◌then◌else◌, count, count-append, remove, count-remove,
}
use sheepcoro.Awaiters.{Ptr, null, update}
use sheepcoro.Awaiters.Chain.{Chain, Chain-update, Chain-unique}
use sheepcoro.Mutex.Refinement.{lock}
use sheepcoro.CondVar.{CondVar, register_cv, pop_head, take_all}
use sheepcoro.CondVar.List.{IsList, register_cv_lem, pop_head_lem, pop_empty, take_all_lem}
use sheepcoro.CondVar.System.{owner, failed, leaving, notified, System, holds_now}
use sheepcoro.CondVar.Invariant.Defs.{waits, has, Inv}

module _ {S : Type 0} {cond : Ptr → Option (S → Bool)} {w : List Ptr} {s : System S}
    (inv : Inv cond w s) (i : Ptr) where
  open inv use {list, located, plain, holder, free, kept, address}

  -- A coroutine that holds the mutex and stands in no list finds its predicate false.
  pub test-Inv :
      2 ≤ i
      → has (s.pc i) ≡ true
      → waits (s.pc i) ≡ 0
      → holds_now (cond i) s.shared ≡ false
      → Inv cond w (record s { pc = update s.pc i failed })
  test-Inv small at out false_now = record {
    list = list;
    located = λ j. ground (arith, located j, located i);
    plain = λ j p. ground (arith, plain j, located i);
    holder = λ j. ground (arith, holder j);
    free = free;
    kept = λ j p. ground (arith, kept j);
    address = λ j p. ground (arith, address j);
  }

  -- Then it registers.
  pub register-Inv :
      s.pc i ≡ failed
      → Inv cond (w ++ i ∷ []) (record s { cv = register_cv i s.cv; pc = update s.pc i leaving })
  register-Inv at = record {
    list = register_cv_lem i w s.cv (address i (rw at)) (ground (arith, located i)) list;
    located = λ j. ground (arith, located j, located i, count-append j w (i ∷ []));
    plain = λ j p. ground (arith, plain j, located i, count-append j w (i ∷ []));
    holder = λ j. ground (arith, holder j);
    free = free;
    kept = λ j p. ground (arith, kept j, kept i (rw at));
    address = λ j p. ground (arith, address j, address i (rw at));
  }

  pub resume_true-Inv : s.pc i ≡ notified → Inv cond w (record s { pc = update s.pc i owner })
  resume_true-Inv at = record {
    list = list;
    located = λ j. ground (arith, located j);
    plain = λ j p. ground (arith, plain j);
    holder = λ j. ground (arith, holder j);
    free = free;
    kept = λ j p. ground (arith, kept j);
    address = λ j p. ground (arith, address j);
  }

  pub wake_free-Inv :
      1 ≤ count i s.called
      → s.mutex.holder ≡ none
      → Inv cond w (record s {
        mutex = lock (some i) s.mutex.queue;
        called = remove i s.called;
        pc = update s.pc i notified;
      })
  wake_free-Inv in_hand f = record {
    list = list;
    located = λ j. ground (arith, located j, located i, count-remove i j s.called, holder i);
    plain = λ j p. ground (arith, plain j, count-remove i j s.called);
    holder = λ j. ground (arith, holder j);
    free = λ p. cc;
    kept = λ j p. ground (arith, kept j);
    address = λ j p. ground (arith, address j, address i, located i);
  }

  pub wake_busy-Inv :
      (h : Ptr)
      → 1 ≤ count i s.called
      → s.mutex.holder ≡ some h
      → Inv cond w
          (record s { mutex = lock (some h) (s.mutex.queue ++ i ∷ []); called = remove i s.called })
  wake_busy-Inv h in_hand f = record {
    list = list;
    located = λ j.
        ground (arith, located j, count-remove i j s.called, count-append j s.mutex.queue (i ∷ []));
    plain = λ j p. ground (arith, plain j, count-remove i j s.called);
    holder = λ j. ground (arith, holder j);
    free = λ p. cc;
    kept = kept;
    address = address;
  }

  pub relinks-Inv :
      (v : Ptr)
      → 1 ≤ count i s.mutex.queue + count i s.called
      → Inv cond w (record s { cv = record s.cv { next = update s.cv.next i v } })
  relinks-Inv v elsewhere = record {
    list = record {
      chain = Chain-update s.cv.next s.cv.head i v w (ground (arith, located i)) list.chain;
      ends = list.ends;
      once = list.once;
    };
    located = located;
    plain = plain;
    holder = holder;
    free = free;
    kept = kept;
    address = address;
  }

module _ {S : Type 0} {cond : Ptr → Option (S → Bool)} {s : System S} where
  pub notify_one-Inv :
      (w : List Ptr)
      → Inv cond w s
      → (i : Ptr) (c : CondVar) → pop_head s.cv ≡ (i, c)
      → (v : List Ptr) × Inv cond v
          (record s { cv = c; called = if i == null then s.called else i ∷ s.called })
  notify_one-Inv [] inv i c ret =
      let none_left = pop_empty s.cv inv.list in
      let nobody : i ≡ null = cc in
      (
        [],
        record {
          list = subst (IsList []) (cc) inv.list;
          located = λ j. ground (arith, inv.located j, nobody);
          plain = λ j p. ground (arith, inv.plain j, nobody);
          holder = inv.holder;
          free = inv.free;
          kept = inv.kept;
          address = inv.address;
        },
      )
  notify_one-Inv (x ∷ w) inv i c ret =
      let (first, rest) = pop_head_lem x w s.cv inv.list in
      let same : i ≡ x = cc in
      (
        w,
        record {
          list = subst (IsList w) (cc) rest;
          located = λ j. ground (arith, inv.located j, same, inv.list.chain);
          plain = λ j p. ground (arith, inv.plain j, same, inv.list.chain);
          holder = inv.holder;
          free = inv.free;
          kept = inv.kept;
          address = inv.address;
        },
      )

  pub notify_all-Inv :
      (w : List Ptr)
      → Inv cond w s
      → (head : Ptr) (c : CondVar) (v : List Ptr) → take_all s.cv ≡ (head, c)
      → Chain s.cv.next head v
      → Inv cond [] (record s { cv = c; called = v ++ s.called })
  notify_all-Inv w inv head c v ret walk =
      let (from, rest) = take_all_lem w s.cv inv.list in
      let same : v ≡ w =
        Chain-unique s.cv.next head v w walk (subst (λ p. Chain s.cv.next p w) (cc) from) in
      record {
        list = subst (IsList []) (cc) rest;
        located = λ j. ground (arith, inv.located j, same, count-append j v s.called);
        plain = λ j p. ground (arith, inv.plain j, same, count-append j v s.called);
        holder = inv.holder;
        free = inv.free;
        kept = inv.kept;
        address = inv.address;
      }
