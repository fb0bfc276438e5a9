-- ===== src/Event/Safety.antt =====
-- What coroutines that share an event can rely on, and the loop of `resume_all_awaiter`.
use sheepcoro.Base.{
  ℕ, zero, suc, ◌≤◌, ◌≡◌, ◌≢◌, refl, ap, true, Bool, Option, none, some, List, [], ◌∷◌, ◌++◌, arith,
  count, length, if◌then◌else◌, ◌==◌,
}
use mathlib.Core.List.{append-nil, append_assoc}
use sheepcoro.Awaiters.{Ptr, Awaiters, submit_task}
use sheepcoro.Awaiters.Chain.{Chain, Chain-null}
use sheepcoro.Event.{this, Event, resume_all_awaiter, set_state}
use sheepcoro.Event.System.{System, Reach, suspended}
use sheepcoro.Event.Invariant.{Inv, walks}
use sheepcoro.Event.Linked.{Reach-IsLinked}

suspended-walker :
    (o : Option Ptr) {p : Ptr} {w : List Ptr} {s : System}
    → Inv o p w s
    → (j : Ptr) → s.pc j ≡ suspended
    → s.state ≡ this
    → (k : Ptr) × (walks (s.pc k) ≡ true)
suspended-walker none {p} {w} {s} inv j e h = absurd (
    ground
      (arith, inv.sleepers j, ap (count j) (Chain-null s.next p w inv.chain (inv.done h refl))))
suspended-walker (some k) inv j e h = (k, ground (arith, inv.walker k))

-- No wake-up is lost where each awaiter waits once and its memory is not reused between the submit
-- of its coroutine and the setter's read of its m_next, which nothing in the source ensures: in
-- every reachable state in which the event is set and a coroutine is suspended on it, some setter is
-- still in the loop that resumes the waiters.
pub no_lost_wakeup :
    {b : Bool} {h : Awaiters} {s : System}
    → Reach b h s
    → (j : Ptr) → s.pc j ≡ suspended
    → s.state ≡ this
    → (k : Ptr) × (walks (s.pc k) ≡ true)
no_lost_wakeup r j = let l = Reach-IsLinked r in suspended-walker l.setter l.inv j

-- With a round for each awaiter of the list, `resume_all_awaiter` returns, has submitted exactly
-- these awaiters in the order of the list, and has changed nothing else.
pub resume_all_awaiter_lem :
    (fuel : ℕ) (p : Ptr) (w : List Ptr) (h : Awaiters)
    → Chain h.next p w
    → length w ≤ fuel
    → resume_all_awaiter fuel p h ≡ some (record h { submitted = h.submitted ++ w })
unfolding resume_all_awaiter
resume_all_awaiter_lem zero p [] h c f = ground (arith, append-nil h.submitted)
resume_all_awaiter_lem zero p (x ∷ w) h c f = absurd (omega arith)
resume_all_awaiter_lem (suc fuel) p [] h c f = ground (arith, append-nil h.submitted)
resume_all_awaiter_lem (suc fuel) p (x ∷ w) h c f = ground (
  arith,
  append_assoc h.submitted (x ∷ []) w,
  resume_all_awaiter_lem fuel (h.next x) w (submit_task x h),
)

-- `set_state` of an event that is not set marks it set and submits its waiters, the last to arrive
-- first; one that is set stays as it is.
pub set_state_lem :
    (fuel : ℕ) (w : List Ptr) (e : Event)
    → (e.state ≢ this → Chain e.next e.state w × (length w ≤ fuel))
    → set_state fuel e
      ≡ some (record {
        state = this;
        awaiters = record e.awaiters {
          submitted = if e.state == this then e.submitted else e.submitted ++ w;
        };
      })
unfolding set_state
set_state_lem fuel w e h = ground (arith, h, resume_all_awaiter_lem fuel e.state w e.awaiters)
