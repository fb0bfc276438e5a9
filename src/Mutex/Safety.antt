-- ===== src/Mutex/Safety.antt =====
-- What coroutines that share a mutex can rely on, in every reachable state.
use sheepcoro.Base.{
  ℕ, suc, ◌+◌, ◌≡◌, refl, ap, true, Option, none, some, List, [], ◌∷◌, ◌++◌, reverse, arith, count,
  count-append, count-reverse_aux, length,
}
use sheepcoro.Awaiters.{Ptr, Awaiters}
use sheepcoro.Awaiters.Chain.{Chain-null}
use sheepcoro.Mutex.{Mutex, unlock_drain}
use sheepcoro.Mutex.System.{System, Reach, suspended, draining}
use sheepcoro.Mutex.Invariant.{Inv, holds, is_owner, asleep, top, drain_returns}
use sheepcoro.Mutex.Refinement.{Lock, Represents, Reach-Represents}

holder_unique : (o : Option Ptr) {i j : Ptr} → is_owner o i ≡ true → is_owner o j ≡ true → i ≡ j
holder_unique o p q = ground arith

-- In every reachable state, two coroutines that have been given the mutex are the same one.
pub mutual_exclusion :
    {h : Awaiters} {s : System}
    → Reach h s
    → (i j : Ptr) → holds (s.pc i) ≡ true
    → holds (s.pc j) ≡ true
    → i ≡ j
mutual_exclusion r i j p q =
    let (l, rep) = Reach-Represents r in
    holder_unique l.holder (ground (arith, rep.inv.holder i)) (ground (arith, rep.inv.holder j))

count-queue :
    {l : Lock} {s : System} (rep : Represents l s) (j : Ptr) → count j l.queue ≡ asleep (s.pc j)
count-queue rep j = omega (
  arith,
  ap (count j) rep.order,
  count-append j rep.older (reverse rep.newer),
  count-reverse_aux j rep.newer [],
  rep.inv.sleepers j,
)

empty_stack : {w r : List Ptr} {s : System} → Inv none w r s → (j : Ptr) → count j w + count j r ≡ 0
empty_stack {w} {r} {s} inv j = omega (
  arith,
  ap (count j) (Chain-null s.next (top s.state) w inv.stack (ground (arith, inv.free))),
  ap (count j) (Chain-null s.next s.resume_list_head r inv.queue (inv.free_queue refl)),
)

holder_of :
    (o : Option Ptr) {w r : List Ptr} {s : System}
    → Inv o w r s
    → (j : Ptr) → s.pc j ≡ suspended
    → (i : Ptr) × (holds (s.pc i) ≡ true)
holder_of none inv j e = absurd (ground (arith, inv.sleepers j, empty_stack inv j))
holder_of (some i) inv j e = (i, ground (arith, inv.holder i))

drain_succeeds :
    {o : Option Ptr} (w r : List Ptr) {s : System}
    → Inv o w r s
    → (i : Ptr) → s.pc i ≡ draining
    → (fuel : ℕ) × (m : Mutex) × (x : Ptr) × (unlock_drain fuel s.mutex ≡ some (x, m))
      × (s.pc x ≡ suspended)
      × (m.submitted ≡ s.submitted ++ x ∷ [])
drain_succeeds w (y ∷ r) inv i e = absurd (ground (arith, inv.queue, inv.drains i))
drain_succeeds [] [] inv i e =
    absurd (ground (arith, inv.stack, inv.drains i, inv.holder i, inv.free))
drain_succeeds (x ∷ w) [] inv i e =
    let (h, m, c, d) = drain_returns inv i e (suc (length w)) (omega arith) in
    (
      suc (length w),
      m,
      h,
      c,
      ground (arith, inv.sleepers h, ap (count h) d.order, count-reverse_aux h (x ∷ w) []),
      d.log,
    )

-- In every reachable state, a coroutine in `unlock` past its failed compare-exchange gets through:
-- with enough rounds no assert fails, the loop returns, and one suspended coroutine, and nothing
-- else, is submitted to be resumed.
pub unlock_drain_returns :
    {h : Awaiters} {s : System}
    → Reach h s
    → (i : Ptr) → s.pc i ≡ draining
    → (fuel : ℕ) × (m : Mutex) × (x : Ptr) × (unlock_drain fuel s.mutex ≡ some (x, m))
      × (s.pc x ≡ suspended)
      × (m.submitted ≡ s.submitted ++ x ∷ [])
unlock_drain_returns r i e =
    let (l, rep) = Reach-Represents r in drain_succeeds rep.newer rep.older rep.inv i e
