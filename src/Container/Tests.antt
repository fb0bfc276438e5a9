-- ===== src/Container/Tests.antt =====
-- Runs and witnesses for Container.antt.
use sheepcoro.Base.{ℕ, ◌≡◌, none, some, List, [], ◌∷◌, if◌then◌else◌}
use sheepcoro.Container.{container, result}
use sheepcoro.Container.Pod
use sheepcoro.Container.Agree.{
  Call, sets_value, sets_exception, run, run_pod, has_exception, result_after, as_pod,
  pod_result_lem,
}

abbrev calls : List (Call ℕ ℕ)
calls = sets_value 3 ∷ sets_value 7 ∷ []

abbrev failing_calls : List (Call ℕ ℕ)
failing_calls = sets_value 3 ∷ sets_exception 7 ∷ []

undefined : result_after 0 (run_pod failing_calls Pod.fresh) ≡ none
undefined = pod_result_lem 0 failing_calls

pod_result_lem_example :
    result_after 0 (run_pod calls Pod.fresh)
    ≡ (if has_exception calls then none else some (as_pod 0 (result (run calls container))))
pod_result_lem_example = pod_result_lem 0 calls
