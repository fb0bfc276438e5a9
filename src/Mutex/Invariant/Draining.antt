-- ===== src/Mutex/Invariant/Draining.antt =====
-- `unlock` from its exchange on keeps the invariant.
use sheepcoro.Base.{
  ℕ, ◌≤◌, ◌<◌, ◌≡◌, refl, ap, sym, subst, ◌∙◌, Option, none, some, List, [], ◌∷◌, ◌++◌, reverse,
  reverse_aux, arith, count, count-reverse_aux, length, dec_lt,
}
use sheepcoro.Awaiters.{Ptr, null, update, submit_task}
use sheepcoro.Awaiters.Chain.{Chain}
use sheepcoro.Mutex.{locked_no_waiting, Mutex, relink, resume_first, unlock_drain}
use sheepcoro.Mutex.Relink.{Relinked, relink-Relinked, relink-none}
use sheepcoro.Mutex.System.{idle, woken, draining, System}
use sheepcoro.Mutex.Invariant.Defs.{Inv}

reverse_aux-cons :
    (xs : List Ptr) (y : Ptr) (ys : List Ptr)
    → (h : Ptr) × (t : List Ptr) × (reverse_aux xs (y ∷ ys) ≡ h ∷ t)
reverse_aux-cons [] y ys = (y, ys, refl)
reverse_aux-cons (x ∷ xs) y ys = reverse_aux-cons xs x (y ∷ ys)

-- The mutex that `unlock_drain` leaves when its loop returns `links` and `head`.
abbrev drained : Mutex → (Ptr → Ptr) → Ptr → Mutex
drained m links head =
    resume_first head
      (record m { state = locked_no_waiting; awaiters = record m.awaiters { next = links } })

-- What `unlock_drain` does with the stack `w`: its oldest awaiter gets the lock, and the others
-- become the resume list, oldest first.
pub record Drained (i : Ptr) (w r : List Ptr) (s : System) (m : Mutex) (head : Ptr) : Type 0 where
  pub rest : List Ptr
  pub order : reverse w ≡ head ∷ rest
  pub no_older : r ≡ []
  pub log : m.submitted ≡ s.submitted ++ head ∷ []
  pub after :
      Inv (some head) [] rest (record { mutex = m; pc = update (update s.pc i idle) head woken })

abbrev DrainedAt : Ptr → (w r : List Ptr) → System → Option (Ptr × Mutex) → Type 0
DrainedAt i w r s none = ⊥
DrainedAt i w r s (some (head, m)) = Drained i w r s m head

module _ {o : Option Ptr} {x : Ptr} {xs : List Ptr} {s : System} (inv : Inv o (x ∷ xs) [] s)
    (i : Ptr) (e : s.pc i ≡ draining) where
  open inv use {stack, queue, sleepers, holder, free, free_queue, tried, address, drains}

  drain_start : Chain s.next s.state (x ∷ xs)
  drain_start = ground (arith, holder i)

  once : (j : Ptr) → count j (x ∷ xs) ≤ 1
  once j = ground (arith, sleepers j)

  relinked :
      (fuel : ℕ)
      → length xs < fuel
      → Relinked s.next (reverse (x ∷ xs)) (relink fuel s.next s.state null)
  relinked fuel h =
      relink-Relinked fuel s.next s.state null x xs [] drain_start refl
        (λ j. ground (arith, once j)) h

  drained-Inv :
      (links : Ptr → Ptr) (h : Ptr) (t : List Ptr)
      → Chain links h (h ∷ t)
      → ((j : Ptr) → count j (h ∷ t) ≡ 0 → links j ≡ s.next j)
      → ((j : Ptr) → count j (h ∷ t) ≡ count j (x ∷ xs))
      → Inv
          (some h)
          []
          t
          (record { mutex = drained s.mutex links h; pc = update (update s.pc i idle) h woken })
  unfolding resume_first
  drained-Inv links h t c frame same = record {
    stack = ground arith;
    queue = ground arith;
    sleepers = λ j. ground (arith, sleepers j, same j, sleepers i);
    holder = λ j. ground (arith, holder j, holder i, sleepers i, same h, sleepers h);
    free = ground arith;
    free_queue = ground arith;
    tried = λ j seen p. ground (arith, tried j seen, frame j, same j, sleepers j);
    address = λ j p. ground (arith, address j);
    drains = λ j p. ground (arith, holder j, holder i);
  }

  unlock_drain-eq :
      (fuel : ℕ) (links : Ptr → Ptr) (h : Ptr)
      → relink fuel s.next s.state null ≡ some (links, h)
      → unlock_drain fuel s.mutex ≡ some (h, drained s.mutex links h)
  unfolding unlock_drain
  unlock_drain-eq fuel links h c = ground (arith, holder i, drains i)

  -- `unlock_drain` returns, and the lock goes to the oldest waiter, which alone is submitted.
  abbrev pub DrainReturns : ℕ → Type 0
  DrainReturns fuel =
      (head : Ptr) × (m : Mutex) × (unlock_drain fuel s.mutex ≡ some (head, m))
      × Drained i (x ∷ xs) [] s m head

  submits_head :
      (links : Ptr → Ptr) (h : Ptr) → (drained s.mutex links h).submitted ≡ s.submitted ++ h ∷ []
  unfolding resume_first submit_task
  submits_head links h = refl

  drain_to :
      (fuel : ℕ) (h : Ptr) (t : List Ptr)
      → reverse (x ∷ xs) ≡ h ∷ t
      → Relinked s.next (reverse (x ∷ xs)) (relink fuel s.next s.state null)
      → DrainReturns fuel
  drain_to fuel h t order rel = (
    h,
    drained s.mutex rel.links h,
    unlock_drain-eq fuel rel.links h (rel.returns ∙ ap (λ p. some (rel.links, p)) chain.0),
    record {
      rest = t;
      order = order;
      no_older = refl;
      log = submits_head rel.links h;
      after =
          drained-Inv rel.links h t (refl, chain.1, chain.2) (λ j out. rel.frame j (rw order out))
            (λ j. omega (arith, count-reverse_aux j (x ∷ xs) [], ap (count j) order));
    },
  )
    where
      chain : Chain rel.links rel.head (h ∷ t)
      chain = subst (Chain rel.links rel.head) order rel.chain

  -- A round for each waiter is enough for the loop.
  pub drain_returns : (fuel : ℕ) → length xs < fuel → DrainReturns fuel
  drain_returns fuel f =
      let (h, t, order) = reverse_aux-cons xs x [] in drain_to fuel h t order (relinked fuel f)

  -- So whatever `unlock_drain` returns is that.
  pub drain-Drained :
      (fuel : ℕ) (head : Ptr) (m : Mutex)
      → unlock_drain fuel s.mutex ≡ some (head, m)
      → Drained i (x ∷ xs) [] s m head
  unfolding unlock_drain
  drain-Drained fuel head m c = elim (dec_lt (length xs) fuel) [
    | yes f ↦
        let (h, m', c', d) = drain_returns fuel f in
        subst (DrainedAt i (x ∷ xs) [] s) (sym c' ∙ c) d
    | no f ↦
        ground (
          arith,
          holder i,
          relink-none fuel s.next s.state null x xs drain_start once (omega arith),
        )
  ]
