-- ===== src/Lifecycle/Whole.antt =====
-- The life of an engine from its constructor to deinit.
use sheepcoro.Base.{
  ℕ, ◌+◌, ◌≤◌, ◌≡◌, refl, sym, ap, subst, ◌∙◌, true, false, Option, none, some, List, [], arith,
  count,
}
use sheepcoro.Engine.{Handle, TaskQueue, IsTaskQueue, Program, max_recursive_depth}
use sheepcoro.Engine.Loop.{Turn, Limited, Context, run}
use sheepcoro.Engine.Loop.Sound.{IsSound, run_finishes}
use sheepcoro.FixedFds.{Uring}
use sheepcoro.Lifecycle.{
  Os, entry_length, Proxy, construct, init_proxy, deinit_proxy, Machine, init_engine, deinit_engine,
  thread, IsOs,
}
use sheepcoro.Lifecycle.Descriptors.{own, init_proxy_lem, construct_lem, deinit_proxy_lem}

module _ {k : Uring} {os : Os k} (law : IsOs os) where
  -- With calls that do what is documented: where a uring_proxy has been constructed and initialised,
  -- and then used by what closes whatever it opens, deinit leaves open what was open before the
  -- construction and nothing else, and has taken the ring down.
  leaves_nothing_open :
      (entries : ℕ) (slots : ℕ → ℕ) (before used : k.State) (p p' : Proxy os)
      → construct os slots before ≡ some p
      → init_proxy os entries p ≡ some p'
      → ((j : ℕ) → law.opens used j ≡ law.opens p'.files.uring j)
      → ((j : ℕ)
          → law.opens
              (deinit_proxy os (record p' { files = record p'.files { uring = used } })).files.uring
              j
            ≡ law.opens before j)
        × (law.ring
              (deinit_proxy os (record p' { files = record p'.files { uring = used } })).files.uring
            ≡ false)
  leaves_nothing_open entries slots before used p p' made ready same =
      let more = construct_lem law slots before p made in
      let (efd, more', _, bound) = init_proxy_lem law entries p p' ready in
      deinit_proxy_lem law (record p' { files = record p'.files { uring = used } })
        (law.opens before) (λ closed. bound (sym efd ∙ closed))
        (λ j. omega (
          arith,
          same j,
          more j,
          more' j,
          owns p.efd p'.null_fds j,
          ap (λ d. own d p'.null_fds j) efd,
        ))
    where
      owns : (efd : Option ℕ) (fds : List ℕ) (j : ℕ) → own efd fds j ≡ own efd [] j + count j fds
      owns none fds j = omega arith
      owns (some fd) fds j = omega arith

  -- With calls that do what is documented, a uring_proxy whose deinit has run can not be initialised
  -- again: init ends the program.
  init-deinit : (entries : ℕ) (p : Proxy os) → init_proxy os entries (deinit_proxy os p) ≡ none
  unfolding deinit_proxy
  init-deinit entries p = go (init_proxy os entries (deinit_proxy os p)) refl
    where
      go :
          (r : Option (Proxy os))
          → init_proxy os entries (deinit_proxy os p) ≡ r
          → init_proxy os entries (deinit_proxy os p) ≡ none
      go none y = y
      go (some p') y =
          let (_, _, _, bound) = init_proxy_lem law entries (deinit_proxy os p) p' y in
          absurd (bound refl)

module _ {k : Uring} {os : Os k} {q : TaskQueue} (law : IsOs os) (queue : IsTaskQueue q)
    (p : Program) where
  -- An engine that has been initialised accounts for every handle if it did before.
  init_engine-IsSound :
      (m m' : Machine os q p)
      → ((j : Handle)
          → count j m.engine.submitted
            ≡ count j (queue.contents m.engine.task_queue)
              + count j m.engine.resumed
              + count j m.engine.discarded)
      → init_engine os q p m ≡ some m'
      → IsSound queue p (record { engine = m'.engine; stop_requested = false })
        × (init_proxy os entry_length m.proxy ≡ some m'.proxy)
  unfolding init_engine
  init_engine-IsSound m m' tally e = go (init_proxy os entry_length m.proxy) refl
    where
      go :
          (r : Option (Proxy os))
          → init_proxy os entry_length m.proxy ≡ r
          → IsSound queue p (record { engine = m'.engine; stop_requested = false })
            × (init_proxy os entry_length m.proxy ≡ some m'.proxy)
      go none y = absurd (ground (arith, e, y))
      go (some proxy) y =
          let new : m' ≡ record {
            engine = record m.engine {
              num_io_wait_submit = 0;
              num_io_running = 0;
              recursive_depth = 0;
            };
            proxy = proxy;
          } =
            ground (arith, e, y) in
          (
            record {
              settled = (
                0,
                record {
                  depth = ap (λ x. x.engine.recursive_depth) new;
                  queued = omega arith;
                  running = ap (λ x. x.engine.num_io_running) new;
                  tally = λ j. simp (new) (omega (arith, tally j));
                },
              );
              finished = λ at_stop. absurd (ground (arith, at_stop));
            },
            y ∙ ap (λ x. some x.proxy) (sym new),
          )

  init_engine-deinit_engine :
      (fresh : q.State) (m : Machine os q p)
      → init_engine os q p (deinit_engine os q p fresh m) ≡ none
  unfolding init_engine deinit_engine
  init_engine-deinit_engine fresh m = rw (init_engine, init-deinit law entry_length m.proxy) refl

  -- With calls that do what is documented, a round of fuel for each level of recursion and an
  -- io_uring that gives no completion when it is asked for none: where the program does not end in
  -- init, and the loop of the thread ends by the thread's own stop callback, the thread of a context
  -- comes to its end: every handle that was submitted has been resumed or discarded, none is lost
  -- with the queue, the descriptors that are open are those open before the context was made, and
  -- the program ends if the context is started again.
  pub thread_lem :
      (fresh : q.State) (fuel : ℕ) (ts : List Turn) (slots : ℕ → ℕ) (before : k.State)
      (m m' : Machine os q p) (c : Context q p)
      → construct os slots before ≡ some m.proxy
      → ((j : Handle)
          → count j m.engine.submitted
            ≡ count j (queue.contents m.engine.task_queue)
              + count j m.engine.resumed
              + count j m.engine.discarded)
      → init_engine os q p m ≡ some m'
      → max_recursive_depth ≤ fuel
      → Limited ts
      → run q p fuel ts (record { engine = m'.engine; stop_requested = false }) ≡ some c
      → c.stop_requested ≡ true
      → (n : Machine os q p) × (thread os q p fresh fuel ts m ≡ some n)
        × ((j : Handle)
            → count j n.engine.submitted ≡ count j n.engine.resumed + count j n.engine.discarded)
        × ((j : ℕ) → law.opens n.proxy.files.uring j ≡ law.opens before j)
        × (law.ring n.proxy.files.uring ≡ false)
        × (init_engine os q p n ≡ none)
  unfolding thread deinit_engine
  thread_lem fresh fuel ts slots before m m' c made tally ready enough limits ran stopped =
      let (sound, ready') = init_engine-IsSound m m' tally ready in
      let (c', ran', _, all) =
        run_finishes queue p fuel ts (record { engine = m'.engine; stop_requested = false }) enough
          limits sound in
      let same : c' ≡ c = ground (arith, ran, ran') in
      let (closed, down) =
        leaves_nothing_open law entry_length slots before m'.proxy.files.uring m.proxy m'.proxy made
          ready' (λ j. refl) in
      (
        deinit_engine os q p fresh (record m' { engine = c.engine }),
        simp (thread, ready, ran) refl,
        λ j.
            subst
              (λ x.
                count j x.engine.submitted ≡ count j x.engine.resumed + count j x.engine.discarded)
              same (all (ap (λ x. x.stop_requested) same ∙ stopped) j),
        closed,
        down,
        init_engine-deinit_engine fresh (record m' { engine = c.engine }),
      )
