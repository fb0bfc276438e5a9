-- ===== src/Engine/Poll.antt =====
-- `poll_submit`: the counters of the operations, and the callbacks of the completions.
use sheepcoro.Base.{ℕ, ◌+◌, ◌%◌, ◌^◌, ◌≤◌, ◌≡◌, refl, not, List, [], ◌∷◌, arith, ◌==◌, bit_and-mask}
use sheepcoro.Engine.{
  TaskQueue, IsTaskQueue, Program, Engine, submit_task, max_recursive_depth, wake_by_cqe,
  handle_cqe_entry, handle_cqes,
}
use sheepcoro.Engine.Ledger.{IsSettled, Settles, perform_lem}
use sheepcoro.Engine.Work.{submit_task_lem}

pub wake_by_cqe_lem : (cnt : ℕ) → wake_by_cqe cnt ≡ not (cnt % 2 ^ 24 == 0)
wake_by_cqe_lem cnt = ground (arith, bit_and-mask cnt 24)

module _ {q : TaskQueue} (law : IsTaskQueue q) (p : Program) where
  pub handle_cqes_lem :
      (fuel d m r : ℕ) (cqes : List ℕ) (e : Engine q p)
      → max_recursive_depth ≤ d + fuel
      → IsSettled law p [] d m r e
      → Settles law p (handle_cqes q p fuel cqes e) d m r
  unfolding handle_cqes handle_cqe_entry
  handle_cqes_lem fuel d m r [] e enough i = (e, refl, i)
  handle_cqes_lem fuel d m r (cqe ∷ cqes) e enough i =
      let (acts, s) = p.callback cqe e.coroutines in
      let (e', ran, i') =
        perform_lem law p (submit_task q p fuel) d m r
          (λ h a j. submit_task_lem law p fuel d m r h a enough j) acts
          (record e { coroutines = s })
          (record { depth = i.depth; queued = i.queued; running = i.running; tally = i.tally }) in
      let (e'', rest, i'') = handle_cqes_lem fuel d m r cqes e' enough i' in
      (e'', rw (handle_cqes, handle_cqe_entry, ran) rest, i'')
