-- ===== src/Engine/Work.antt =====
-- `submit_task` and `process_work` return, and lose and double no task.
use sheepcoro.Base.{
  ℕ, zero, suc, ◌+◌, ◌≤◌, ◌≡◌, refl, ap, Bool, true, false, some, List, [], ◌∷◌, arith, length,
  Bool-cases, inl, inr,
}
use sheepcoro.Engine.{
  Handle, TaskQueue, IsTaskQueue, Program, Engine, exec_with, discard, deeper, back_up, push_task,
  runs_inline, submit_task, exec_task, exec_one_task, exec_tasks, process_work, max_recursive_depth,
}
use sheepcoro.Engine.Ledger.{
  IsSettled, Settles, exec_with_lem, pushed-IsSettled, refused-IsSettled, discard-IsSettled,
}

module _ {q : TaskQueue} (law : IsTaskQueue q) (p : Program) where
  deeper-IsSettled :
      {w : List Handle} {d m r : ℕ} (e : Engine q p)
      → IsSettled law p w d m r e
      → IsSettled law p w (d + 1) m r (deeper q p e)
  deeper-IsSettled e i = record {
    depth = ground (arith, i.depth);
    queued = i.queued;
    running = i.running;
    tally = i.tally;
  }

  back_up-IsSettled :
      {d m r : ℕ} (e : Engine q p)
      → IsSettled law p [] (d + 1) m r e
      → IsSettled law p [] d m r (back_up q p e)
  back_up-IsSettled e i = record {
    depth = ground (arith, i.depth);
    queued = i.queued;
    running = i.running;
    tally = i.tally;
  }

  -- The branches of `submit_task`.
  submit_pushed :
      (fuel : ℕ) (h : Handle) (e e' : Engine q p)
      → push_task q p h e ≡ (true, e')
      → submit_task q p fuel h e ≡ some e'
  unfolding submit_task
  submit_pushed zero h e e' y = ground (arith, y)
  submit_pushed (suc n) h e e' y = ground (arith, y)

  submit_discarded :
      (fuel : ℕ) (h : Handle) (e e' : Engine q p)
      → push_task q p h e ≡ (false, e')
      → runs_inline q p e' ≡ false
      → submit_task q p fuel h e ≡ some (discard q p h e')
  unfolding submit_task
  submit_discarded zero h e e' y z = ground (arith, y, z)
  submit_discarded (suc n) h e e' y z = ground (arith, y, z)

  submit_inline :
      (fuel : ℕ) (h : Handle) (e e' e'' : Engine q p)
      → push_task q p h e ≡ (false, e')
      → runs_inline q p e' ≡ true
      → exec_with q p (submit_task q p fuel) h (deeper q p e') ≡ some e''
      → submit_task q p (suc fuel) h e ≡ some (back_up q p e'')
  unfolding submit_task
  submit_inline fuel h e e' e'' y z ran = ground (arith, y, z, ran)

  stops_inline :
      {w : List Handle} {d m r : ℕ} (e : Engine q p)
      → IsSettled law p w d m r e
      → max_recursive_depth ≤ d
      → runs_inline q p e ≡ false
  stops_inline e i deep = ground (arith, i.depth)

  weaken :
      {d m m' r : ℕ} (e : Engine q p)
      → m' ≤ m
      → IsSettled law p [] d m r e
      → IsSettled law p [] d m' r e
  weaken e less i = record {
    depth = i.depth;
    queued = omega (arith, less, i.queued);
    running = i.running;
    tally = i.tally;
  }

  -- The account is kept if it is kept where the task runs at once.
  submit_step :
      (fuel d m r : ℕ) (h : Handle) (e : Engine q p)
      → IsSettled law p [] d m r e
      → ((e' : Engine q p)
          → push_task q p h e ≡ (false, e')
          → runs_inline q p e' ≡ true
          → Settles law p (submit_task q p fuel h e) d m r)
      → Settles law p (submit_task q p fuel h e) d m r
  submit_step fuel d m r h e i run = elim (Bool-cases (push_task q p h e).0) [
    | inl y ↦ (e', submit_pushed fuel h e e' (split y), pushed-IsSettled law p h e e' i (split y))
    | inr y ↦ elim (Bool-cases (runs_inline q p e')) [
      | inl z ↦ run e' (split y) z
      | inr z ↦ (
        discard q p h e',
        submit_discarded fuel h e e' (split y) z,
        discard-IsSettled law p h e' (refused-IsSettled law p h e e' i (split y)),
      )
    ]
  ]
    where
      e' : Engine q p
      e' = (push_task q p h e).1

      split : {b : Bool} → (push_task q p h e).0 ≡ b → push_task q p h e ≡ (b, e')
      split y = ap (λ b. (b, e')) y

  -- With a round of fuel for each level that is left, `submit_task` returns at the depth at which
  -- it was called, and the handle is queued, was resumed or was discarded.
  pub submit_task_lem :
      (fuel d m r : ℕ) (h : Handle) (e : Engine q p)
      → max_recursive_depth ≤ d + fuel
      → IsSettled law p [] d m r e
      → Settles law p (submit_task q p fuel h e) d m r
  submit_task_lem zero d m r h e enough i = submit_step zero d m r h e i (λ e' y z.
      absurd
        (ground (arith, stops_inline e' (refused-IsSettled law p h e e' i y) (omega arith), z)))
  submit_task_lem (suc n) d m r h e enough i = submit_step (suc n) d m r h e i (λ e' y z.
      let (e'', ran, i'') =
        exec_with_lem law p (submit_task q p n) (d + 1) m r
          (λ h' a i'. submit_task_lem n (d + 1) m r h' a (omega arith) i') h (deeper q p e')
          (deeper-IsSettled e' (refused-IsSettled law p h e e' i y)) in
      (back_up q p e'', submit_inline n h e e' e'' y z ran, back_up-IsSettled e'' i''))

  exec_one_task_lem :
      (fuel d m r : ℕ) (e : Engine q p)
      → max_recursive_depth ≤ d + fuel
      → IsSettled law p [] d (suc m) r e
      → Settles law p (exec_one_task q p fuel e) d m r
  unfolding exec_one_task exec_task
  exec_one_task_lem fuel d m r e enough i = go (law.contents e.task_queue) refl
    where
      go :
          (hs : List Handle)
          → law.contents e.task_queue ≡ hs
          → Settles law p (exec_one_task q p fuel e) d m r
      go [] y = absurd (ground (arith, i.queued, y))
      go (h ∷ hs) y =
          let (t, taken, left) = law.popped e.task_queue h hs y in
          let (e', ran, i') =
            exec_with_lem law p (submit_task q p fuel) d m r
              (λ h' a i'. submit_task_lem fuel d m r h' a enough i') h (record e { task_queue = t })
              (record {
                depth = i.depth;
                queued = ground (arith, i.queued, y, left);
                running = i.running;
                tally = λ j. ground (arith, i.tally j, y, left);
              }) in
          (e', rw (exec_one_task, taken, ran) refl, i')

  exec_tasks_lem :
      (fuel n d m r : ℕ) (e : Engine q p)
      → max_recursive_depth ≤ d + fuel
      → IsSettled law p [] d (n + m) r e
      → Settles law p (exec_tasks q p fuel n e) d m r
  unfolding exec_tasks
  exec_tasks_lem fuel zero d m r e enough i = (e, refl, weaken e (omega arith) i)
  exec_tasks_lem fuel (suc n) d m r e enough i =
      let (e', ran, i') = exec_one_task_lem fuel d (n + m) r e enough (weaken e (omega arith) i) in
      let (e'', rest, i'') = exec_tasks_lem fuel n d m r e' enough i' in
      (e'', rw (exec_tasks, ran) rest, i'')

  -- With a round of fuel for each level of recursion, a turn of the work loop of an engine at depth
  -- 0 whose account is settled returns: it never waits for a task, the depth is 0 again, and of each
  -- handle the submissions are again what is queued, was resumed or was discarded.
  pub process_work_lem :
      (fuel r : ℕ) (e : Engine q p)
      → max_recursive_depth ≤ fuel
      → IsSettled law p [] 0 (length (law.contents e.task_queue)) r e
      → Settles law p (process_work q p fuel e) 0 0 r
  unfolding process_work
  process_work_lem fuel r e enough i = exec_all (q.was_size e.task_queue) (law.size e.task_queue)
    where
      exec_all :
          (n : ℕ)
          → n ≡ length (law.contents e.task_queue)
          → Settles law p (exec_tasks q p fuel n e) 0 0 r
      exec_all n y = exec_tasks_lem fuel n 0 0 r e (omega arith) (record {
        depth = i.depth;
        queued = omega (arith, y);
        running = i.running;
        tally = i.tally;
      })
