-- ===== src/Container/Agree.antt =====
-- The two versions of the container of include/coro/detail/container.hpp side by side.
use sheepcoro.Base.{◌≡◌, refl, Bool, true, false, Option, none, some, List, [], ◌∷◌, if◌then◌else◌}
use sheepcoro.Container.{
  Storage, stored, Result, returns, rethrows, never_set, terminates, Container, container,
  return_value, set_exception, result, PodContainer, m_value, value_state,
}
use sheepcoro.Container.Pod

-- The calls of a promise.
pub data Call (A X : Type 0) : Type 0 where
  sets_value : A → Call A X
  sets_exception : X → Call A X

module _ {A X : Type 0} where
  unfoldable pub run : List (Call A X) → Container A X → Container A X
  run [] c = c
  run (sets_value v ∷ cs) c = run cs (return_value v c)
  run (sets_exception x ∷ cs) c = run cs (set_exception x c)

  -- none: an assignment to an exception_ptr that was never constructed.
  unfoldable pub run_pod : List (Call A X) → PodContainer A X → Option (PodContainer A X)
  run_pod [] c = some c
  run_pod (sets_value v ∷ cs) c = run_pod cs (Pod.return_value v c)
  run_pod (sets_exception x ∷ cs) c = elim (Pod.set_exception x c) [
    | none ↦ none
    | some c' ↦ run_pod cs c'
  ]

  -- Some call sets an exception.
  abbrev pub has_exception : List (Call A X) → Bool
  has_exception [] = false
  has_exception (sets_value v ∷ cs) = has_exception cs
  has_exception (sets_exception x ∷ cs) = true

  -- The result that run_pod leaves.
  abbrev pub result_after : (zero : A) → Option (PodContainer A X) → Option (Result A X)
  result_after zero none = none
  result_after zero (some c) = Pod.result zero c

  -- What the version for trivial types makes of a result.
  abbrev pub as_pod : (zero : A) → Result A X → Result A X
  as_pod zero (returns v) = returns v
  as_pod zero (rethrows x) = terminates
  as_pod zero never_set = returns zero
  as_pod zero terminates = terminates

  -- Neither has an exception.
  abbrev pod_of : Storage A X → PodContainer A X
  pod_of (stored v) = record { bits = m_value v; state = value_state }
  pod_of _ = Pod.fresh

  abbrev expected : (zero : A) → Bool → Container A X → Option (Result A X)
  expected zero failing c = if failing then none else some (as_pod zero (result c))

  from_value :
      (zero v : A) (cs : List (Call A X)) (c : Container A X)
      → c.storage ≡ stored v
      → result_after zero (run_pod cs (pod_of (stored v)))
        ≡ expected zero (has_exception cs) (run cs c)
  unfolding run run_pod return_value set_exception Pod.return_value Pod.set_exception Pod.result
      result
  from_value zero v [] c at = rw at refl
  from_value zero v (sets_value u ∷ cs) c at = from_value zero u cs (return_value u c) refl
  from_value zero v (sets_exception x ∷ cs) c at = refl

  -- After any sequence of values and exceptions: with values only, the container for trivial types
  -- returns what the other one returns, and T{} where that throws runtime_error because there were
  -- none; with an exception among them, it comes to the assignment of an exception_ptr to a member
  -- that was never constructed, which is undefined.
  pub pod_result_lem :
      (zero : A) (cs : List (Call A X))
      → result_after zero (run_pod cs Pod.fresh)
        ≡ (if has_exception cs then none else some (as_pod zero (result (run cs container))))
  unfolding run run_pod return_value set_exception Pod.return_value Pod.set_exception Pod.result
      result
  pod_result_lem zero [] = refl
  pod_result_lem zero (sets_value v ∷ cs) = from_value zero v cs (return_value v container) refl
  pod_result_lem zero (sets_exception x ∷ cs) = refl
