-- ===== src/Engine/Tests.antt =====
-- Runs and witnesses for Engine.antt.
use sheepcoro.Base.{
  ℕ, ◌+◌, count, ◌^◌, ◌≤◌, ◌≡◌, refl, true, false, some, List, [], ◌∷◌, arith, ltb, ◌==◌,
  if◌then◌else◌, length,
}
use sheepcoro.Engine.{Handle, Action, submits, adds_io, Program, Engine, process_work, poll_submit}
use sheepcoro.Engine.OnePlace.{one_place, one_place-IsTaskQueue}
use sheepcoro.Engine.Ledger.{IsSettled, Settles}
use sheepcoro.Engine.Work.{process_work_lem}
use sheepcoro.Engine.Loop.{Turn, Context, run}
use sheepcoro.Engine.Loop.Sound.{IsSound, run_finishes}

-- Coroutine 5 submits 6 and 7 and starts an operation; the others do nothing. All are detached and
-- done. The callback of a completion submits its number.
abbrev acts_of : Handle → List Action
acts_of h = if h == 5 then submits 6 ∷ submits 7 ∷ adds_io ∷ [] else []

abbrev three : Program
three = record {
  State = ℕ;
  resume = λ h s. (acts_of h, true, s);
  is_detached = λ h s. true;
  callback = λ cqe s. (submits cqe ∷ [], s);
}

-- 5 is queued, and three operations run.
abbrev busy : Engine one_place three
busy = record {
  task_queue = 5 ∷ [];
  num_io_wait_submit = 0;
  num_io_running = 3;
  recursive_depth = 0;
  working = true;
  eventfd = 0;
  coroutines = 0;
  submitted = 5 ∷ [];
  resumed = [];
  discarded = [];
  destroyed = [];
}

busy-IsSettled : IsSettled one_place-IsTaskQueue three [] 0 1 3 busy
unfolding one_place-IsTaskQueue
busy-IsSettled = record {
  depth = refl;
  queued = omega arith;
  running = refl;
  tally = λ j. ground arith;
}

-- The room that 5 leaves goes to 6, and 7 runs at once.
process_work_run :
    process_work one_place three 1 busy
    ≡ some (record {
      task_queue = 6 ∷ [];
      num_io_wait_submit = 1;
      num_io_running = 3;
      recursive_depth = 0;
      working = true;
      eventfd = 2 ^ 44;
      coroutines = 0;
      submitted = 5 ∷ 6 ∷ 7 ∷ [];
      resumed = 5 ∷ 7 ∷ [];
      discarded = [];
      destroyed = 7 ∷ 5 ∷ [];
    })
unfolding process_work
process_work_run = refl

process_work_lem_example :
    Settles one_place-IsTaskQueue three (process_work one_place three 4096 busy) 0 0 3
unfolding one_place-IsTaskQueue
process_work_lem_example =
    process_work_lem one_place-IsTaskQueue three 4096 3 busy (omega arith) busy-IsSettled

-- Two completions, with 8 and 9.
abbrev two_cqes : ℕ → List ℕ
two_cqes n = if ltb n 2 then [] else 8 ∷ 9 ∷ []

two_cqes-limit : (n : ℕ) → length (two_cqes n) ≤ n
two_cqes-limit n = ground arith

-- The first turn runs 5, the second 6 and handles the completions, and so on.
abbrev a_turn : Turn
a_turn = record { stop = false; num_wait = 0; cnt = 2; peek = two_cqes }

abbrev running : Context one_place three
running = record { engine = busy; stop_requested = false }

running-IsSound : IsSound one_place-IsTaskQueue three running
unfolding one_place-IsTaskQueue
running-IsSound = record {
  settled =
      (3, record { depth = refl; queued = omega arith; running = refl; tally = λ j. ground arith });
  finished = λ e. absurd (ground (arith, e));
}

abbrev turns : List Turn
turns = a_turn ∷ a_turn ∷ a_turn ∷ a_turn ∷ a_turn ∷ []

stops_itself :
    (c : Context one_place three) × (run one_place three 1 turns running ≡ some c)
    × (c.stop_requested ≡ true)
unfolding run process_work poll_submit
stops_itself = (_, refl, refl)

run_finishes_example :
    (c : Context one_place three) × (run one_place three 4096 turns running ≡ some c)
    × IsSound one_place-IsTaskQueue three c
    × (c.stop_requested ≡ true
        → (j : Handle)
        → count j c.engine.submitted ≡ count j c.engine.resumed + count j c.engine.discarded)
run_finishes_example =
    run_finishes one_place-IsTaskQueue three 4096 turns running (omega arith)
      (omega arith, (omega arith, (omega arith, (omega arith, (omega arith, tt))))) running-IsSound
