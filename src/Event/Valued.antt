-- ===== src/Event/Valued.antt =====
-- `event<T>` of include/coro/comp/event.hpp: an event with a container for the value that `set` is
-- given and that co_await returns.
use sheepcoro.Base.{◌≡◌, Bool, true, false, Option, none, some, []}
use sheepcoro.Awaiters.{Ptr, update, Awaiters}
use sheepcoro.Container.{Container, container, Result, return_value, result}
use sheepcoro.Event.{event_base}
use sheepcoro.Event.System.{
  Pc, idle, ready, woken, finished, walking, advancing, System, Step, ready_test, load_set, load,
  cas, spurious, resume_ready, resume_woken, set, walk_end, walk, advance, Reach,
}
use sheepcoro.Event.System

module _ (A X : Type 0) where
  -- `setting` tells who is in `set` past return_value, and `given` what await_resume has returned.
  pub record Valued : Type 0 where
    pub event : System
    pub values : Container A X
    pub setting : Ptr → Bool
    pub given : Ptr → Option (Result A X)

-- The coroutine whose `set_state` a step begins, and the one whose await_resume it is.
abbrev pub setter_of : {s t : System} → Step s t → Option Ptr
setter_of (set k flag e at y) = some k
setter_of _ = none

abbrev pub resumer_of : {s t : System} → Step s t → Option Ptr
resumer_of (resume_ready i at) = some i
resumer_of (resume_woken i at) = some i
resumer_of _ = none

-- `passed` holds of the values that `set` is called with.
module _ {A X : Type 0} (passed : A → Type 0) where
  pub data ValuedStep (s : Valued A X) : Valued A X → Type 0 where
    plain :
        (t : System) (e : Step s.event t)
        → setter_of e ≡ none
        → resumer_of e ≡ none
        → ValuedStep s (record s { event = t })
    -- `set`, which stores the value and then calls set_state
    stores :
        (k : Ptr) (v : A)
        → passed v
        → s.setting k ≡ false
        → ValuedStep s
            (record s { values = return_value v s.values; setting = update s.setting k true })
    sets :
        (k : Ptr) (t : System) (e : Step s.event t)
        → setter_of e ≡ some k
        → s.setting k ≡ true
        → ValuedStep s (record s { event = t; setting = update s.setting k false })
    -- `await_resume`, which returns the result
    resumes :
        (i : Ptr) (t : System) (e : Step s.event t)
        → resumer_of e ≡ some i
        → ValuedStep s (record s { event = t; given = update s.given i (some (result s.values)) })

  -- The event is not set at first.
  pub data ValuedReach (h : Awaiters) : Valued A X → Type 0 where
    fresh : ValuedReach h (record {
      event = record { event = event_base false (record h { submitted = [] }); pc = λ _. idle };
      values = container;
      setting = λ _. false;
      given = λ _. none;
    })
    later : {s t : Valued A X} → ValuedReach h s → ValuedStep s t → ValuedReach h t

  pub event_Reach : {h : Awaiters} {s : Valued A X} → ValuedReach h s → Reach false h s.event
  event_Reach fresh = System.start
  event_Reach (later r (plain t e _ _)) = System.later (event_Reach r) e
  event_Reach (later r (stores k v ok _)) = event_Reach r
  event_Reach (later r (sets k t e _ _)) = System.later (event_Reach r) e
  event_Reach (later r (resumes i t e _)) = System.later (event_Reach r) e
