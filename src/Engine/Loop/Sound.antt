-- ===== src/Engine/Loop/Sound.antt =====
-- The loop keeps account of every handle, and stops itself only when nothing is left.
use sheepcoro.Base.{
  ℕ, ◌+◌, ◌≤◌, ◌≡◌, refl, sym, ap, subst, ◌∙◌, true, false, none, some, List, [], ◌∷◌, arith,
  length, count, Bool-cases, inl, inr,
}
use sheepcoro.Awaiters.{sub_size}
use sheepcoro.Engine.{
  Handle, TaskQueue, IsTaskQueue, Program, Engine, max_recursive_depth, wake_by_cqe, do_io_submit,
  handle_cqes, poll_submit,
}
use sheepcoro.Engine.Ledger.{IsSettled, Settles}
use sheepcoro.Engine.Work.{process_work_lem}
use sheepcoro.Engine.Poll.{handle_cqes_lem}
use sheepcoro.Engine.Loop.{
  Turn, Limited, Context, empty_wait_task, stop_cb, poll_work, after_work, turn, run,
}

no_length : {A : Type 0} (l : List A) → length l ≤ 0 → l ≡ []
no_length [] h = refl
no_length (x ∷ l) h = absurd (omega arith)

module _ {q : TaskQueue} (law : IsTaskQueue q) (p : Program) where
  -- Nothing is left to do.
  pub record IsFinished (e : Engine q p) : Type 0 where
    pub no_task : law.contents e.task_queue ≡ []
    pub no_wait : e.num_io_wait_submit ≡ 0
    pub no_running : e.num_io_running ≡ 0

  -- Every handle is accounted for, and the thread has not stopped itself before its end.
  pub record IsSound (c : Context q p) : Type 0 where
    pub settled : (r : ℕ) × IsSettled law p [] 0 0 r c.engine
    pub finished : c.stop_requested ≡ true → IsFinished c.engine

  poll-Settles :
      (fuel cnt r : ℕ) (peek : ℕ → List ℕ) (e : Engine q p)
      → max_recursive_depth ≤ fuel
      → IsSettled law p [] 0 0 r e
      → (r' : ℕ) × Settles law p (poll_submit q p fuel cnt peek e) 0 0 r'
  unfolding poll_submit do_io_submit
  poll-Settles fuel cnt r peek e enough i = elim (Bool-cases (wake_by_cqe cnt)) [
    | inl y ↦
        (let cqes = peek e'.num_io_running in
          let (a, ran, j) = handle_cqes_lem law p fuel 0 0 _ cqes e' (omega arith) e'-IsSettled in
          (
            _,
            (
              record a { num_io_running = sub_size a.num_io_running (length cqes) },
              ground (arith, y, ran),
              record { depth = j.depth; queued = j.queued; running = refl; tally = j.tally },
            ),
          ))
    | inr y ↦ (_, (e', ground (arith, y), e'-IsSettled))
  ]
    where
      e' : Engine q p
      e' = record (do_io_submit q p e) { eventfd = 0 }

      e'-IsSettled : IsSettled law p [] 0 0 e'.num_io_running e'
      e'-IsSettled = record {
        depth = ground (arith, i.depth);
        queued = omega arith;
        running = refl;
        tally = λ j. ground (arith, i.tally j);
      }

  poll-IsFinished :
      (fuel cnt : ℕ) (peek : ℕ → List ℕ) (e : Engine q p)
      → length (peek 0) ≤ 0
      → IsFinished e
      → (e' : Engine q p) × (poll_submit q p fuel cnt peek e ≡ some e') × IsFinished e'
  unfolding poll_submit do_io_submit handle_cqes
  poll-IsFinished fuel cnt peek e limit f = elim (Bool-cases (wake_by_cqe cnt)) [
    | inl y ↦ (
      record e' { num_io_running = sub_size e'.num_io_running 0 },
      ground (arith, y, no_cqes),
      record {
        no_task = ground (arith, f.no_task, f.no_wait);
        no_wait = ground (arith, f.no_wait);
        no_running = ground (arith, none_runs);
      },
    )
    | inr y ↦ (
      e',
      ground (arith, y),
      record {
        no_task = ground (arith, f.no_task, f.no_wait);
        no_wait = ground (arith, f.no_wait);
        no_running = none_runs;
      },
    )
  ]
    where
      e' : Engine q p
      e' = record (do_io_submit q p e) { eventfd = 0 }

      none_runs : e'.num_io_running ≡ 0
      none_runs = ground (arith, f.no_wait, f.no_running)

      no_cqes : peek e'.num_io_running ≡ []
      no_cqes = rw none_runs (no_length (peek 0) limit)

  same_result : {a b : Engine q p} → some a ≡ some b → a ≡ b
  same_result {a} {b} e = ap (λ o. elim o as (λ _. Engine q p) [ none ↦ b | some x ↦ x ]) e

  -- A call of poll_work that follows the stop callback, or not.
  poll_work-IsSound :
      (fuel : ℕ) (t : Turn) (c : Context q p)
      → max_recursive_depth ≤ fuel
      → length (t.peek 0) ≤ 0
      → IsSound c
      → (c' : Context q p) × (poll_work q p fuel t c ≡ some c') × IsSound c'
  poll_work-IsSound fuel t c enough limit s =
      let (r, i) = s.settled in
      let (r', (e', ran, j)) = poll-Settles fuel t.cnt r t.peek c.engine enough i in
      (
        record c { engine = e' },
        rw (poll_work, ran) refl,
        record {
          settled = (r', j);
          finished = λ at_stop.
              let (e'', ran', f) =
                poll-IsFinished fuel t.cnt t.peek c.engine limit (s.finished at_stop) in
              subst IsFinished (same_result (sym ran' ∙ ran)) f;
        },
      )

  after_work-IsSound :
      (fuel : ℕ) (t : Turn) (c : Context q p)
      → max_recursive_depth ≤ fuel
      → length (t.peek 0) ≤ 0
      → IsSound c
      → (c' : Context q p) × (after_work q p fuel t c ≡ some c') × IsSound c'
  after_work-IsSound fuel t c enough limit s =
      let e = c.engine in
      let (polled, ran, sound) = poll_work-IsSound fuel t c enough limit s in
      elim (Bool-cases (empty_wait_task q p t.num_wait c.engine)) [
        | inl y ↦ elim (Bool-cases (q.was_empty c.engine.task_queue)) [
          | inl z ↦
              (let (stopped, ran', sound') =
                  poll_work-IsSound fuel t (stop_cb q p c) enough limit (record {
                    settled = s.settled;
                    finished = λ at_stop. record {
                      no_task =
                          no_length (law.contents e.task_queue)
                            (ground (arith, law.empty e.task_queue, z));
                      no_wait = ground (arith, y);
                      no_running = ground (arith, y);
                    };
                  }) in
                (stopped, rw (after_work, y, z) ran', sound'))
          | inr z ↦ (c, rw (after_work, y, z) refl, s)
        ]
        | inr y ↦ (polled, rw (after_work, y) ran, sound)
      ]

  turn-IsSound :
      (fuel : ℕ) (t : Turn) (c : Context q p)
      → max_recursive_depth ≤ fuel
      → length (t.peek 0) ≤ 0
      → IsSound c
      → c.stop_requested ≡ false
      → (c' : Context q p) × (turn q p fuel t c ≡ some c') × IsSound c'
  unfolding turn
  turn-IsSound fuel t c enough limit s goes =
      let (r, i) = s.settled in
      let (e, worked, j) =
        process_work_lem law p fuel r c.engine enough (record {
          depth = i.depth;
          queued = omega arith;
          running = i.running;
          tally = i.tally;
        }) in
      let (c', ran, sound) =
        after_work-IsSound fuel t (record c { engine = e }) enough limit
          (record {
            settled = (r, j);
            finished = λ at_stop. absurd (ground (arith, goes, at_stop));
          }) in
      (c', rw (turn, worked) ran, sound)

  run-IsSound :
      (fuel : ℕ) (ts : List Turn) (c : Context q p)
      → max_recursive_depth ≤ fuel
      → Limited ts
      → IsSound c
      → (c' : Context q p) × (run q p fuel ts c ≡ some c') × IsSound c'
  unfolding run
  run-IsSound fuel [] c enough limit s = (c, refl, s)
  run-IsSound fuel (t ∷ ts) c enough (limit, limits) s = elim (Bool-cases c.stop_requested) [
    | inl y ↦ (c, rw (run, y) refl, s)
    | inr y ↦
        (let (c1, ran, s1) = turn-IsSound fuel t c enough limit s y in
          let (c2, rest, s2) = run-IsSound fuel ts c1 enough limits s1 in
          elim (Bool-cases t.stop) [
            | inl z ↦ (c, rw (run, y, z) refl, s)
            | inr z ↦ (c2, simp (run, y, z, ran, rest), s2)
          ])
  ]

  -- The loop of a context without a scheduler, on one thread, gets through any number of turns,
  -- whatever its coroutines and callbacks do, with a round of fuel for each level of recursion and
  -- an io_uring that gives no completion when it is asked for none: every handle stays accounted for,
  -- and when the stop is requested by the thread itself then no task is queued, no operation is left,
  -- and every handle that was submitted was resumed or discarded, as often as it was submitted.
  pub run_finishes :
      (fuel : ℕ) (ts : List Turn) (c : Context q p)
      → max_recursive_depth ≤ fuel
      → Limited ts
      → IsSound c
      → (c' : Context q p) × (run q p fuel ts c ≡ some c')
        × IsSound c'
        × (c'.stop_requested ≡ true
            → (j : Handle)
            → count j c'.engine.submitted ≡ count j c'.engine.resumed + count j c'.engine.discarded)
  run_finishes fuel ts c enough limits s =
      let (c', ran, s') = run-IsSound fuel ts c enough limits s in
      let (r, i) = s'.settled in
      (c', ran, s', λ at_stop j. ground (arith, i.tally j, (s'.finished at_stop).no_task))
