-- ===== src/Event/Tests.antt =====
-- One coroutine, at awaiter 2, waits for an event that coroutine 3 sets.
use sheepcoro.Base.{ℕ, ◌≡◌, refl, true, false, some, [], ◌∷◌, arith}
use sheepcoro.Awaiters.{Ptr, Awaiters, null, update}
use sheepcoro.Event.{
  Event, this, event_base, await_ready, register_load, register_cas, register_awaiter, set_exchange,
  resume_all_awaiter,
}
use sheepcoro.Event.System.{
  System, suspended, walking, ready_test, load, cas, resume_woken, set, walk, Reach, start, later,
}
use sheepcoro.Event.Valued.{Valued, plain, stores, sets, resumes, ValuedReach, fresh}
use sheepcoro.Event.Valued
use sheepcoro.Container.{Result, returns, return_value, result}
use sheepcoro.Event.Invariant.{walks}
use sheepcoro.Event.Safety.{no_lost_wakeup, resume_all_awaiter_lem}

abbrev no_waits : Awaiters
no_waits = record { next = λ _. null; ctx = λ _. 0; num_wait = λ _. 0; submitted = [] }

-- Awaiter 3 registers behind awaiter 2.
abbrev two_waiters : Event
two_waiters = record { state = 3; awaiters = record no_waits { next = update (λ _. null) 3 2 } }

two_registered : (register_awaiter 3 (register_awaiter 2 (event_base false no_waits)).1).1.state ≡ 3
unfolding register_awaiter
two_registered = refl

register_after_set : (register_awaiter 2 (event_base true no_waits)).0 ≡ false
unfolding register_awaiter
register_after_set = refl

abbrev Setting : Type 0
Setting =
    (s : System) × Reach false no_waits s
    × (s.pc 2 ≡ suspended)
    × (s.pc 3 ≡ walking 2)
    × (s.state ≡ this)

setting : Setting
unfolding await_ready register_load register_cas set_exchange
setting = (
  _,
  later
      (later
        (later (later start (ready_test 2 false _ (omega arith) refl refl))
          (load 2 null _ refl refl))
        (cas 2 true _ refl refl))
      (set 3 2 _ refl refl),
  refl,
  refl,
  refl,
)

no_lost_wakeup_example : (k : Ptr) × (walks (setting.0.pc k) ≡ true)
no_lost_wakeup_example = no_lost_wakeup setting.1 2 setting.2 setting.4

both_resumed :
    resume_all_awaiter 2 3 two_waiters.awaiters
    ≡ some (record two_waiters.awaiters { submitted = 3 ∷ 2 ∷ [] })
both_resumed =
    resume_all_awaiter_lem 2 3 (3 ∷ 2 ∷ []) two_waiters.awaiters (omega arith) (omega arith)

-- Coroutine 3 sets the event that coroutine 2 waits for to 7, and coroutine 2 is given 7.
abbrev IsSeven : ℕ → Type 0
IsSeven v = v ≡ 7

abbrev Given : Type 0
Given = (s : Valued ℕ ℕ) × ValuedReach {X = ℕ} IsSeven no_waits s × (s.given 2 ≡ some (returns 7))

given : Given
unfolding await_ready register_load register_cas set_exchange return_value result
given = (
  _,
  Valued.later
      (Valued.later
        (Valued.later
          (Valued.later
            (Valued.later
              (Valued.later
                (Valued.later fresh
                  (plain _ (ready_test 2 false _ (omega arith) refl refl) refl refl))
                (plain _ (load 2 null _ refl refl) refl refl))
              (plain _ (cas 2 true _ refl refl) refl refl))
            (stores 3 7 refl refl))
          (sets 3 _ (set 3 2 _ refl refl) refl refl))
        (plain _ (walk 3 refl (λ e. ground (arith, e))) refl refl))
      (resumes 2 _ (resume_woken 2 refl) refl),
  refl,
)

abbrev seven : Result ℕ ℕ
seven = returns 7
