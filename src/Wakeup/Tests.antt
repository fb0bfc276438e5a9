-- ===== src/Wakeup/Tests.antt =====
-- Runs and witnesses for Wakeup.antt.
use sheepcoro.Base.{ℕ, suc, ◌^◌, ◌≡◌, ◌≢◌, refl, Bool, true, false, none, List, [], ◌∷◌, arith}
use sheepcoro.Engine.{Handle, task_flag}
use sheepcoro.Engine.OnePlace.{one_place, one_place-IsTaskQueue}
use sheepcoro.Wakeup.{wake_up, Pc, running, stopping, reading, peeking, writing}
use sheepcoro.Wakeup.System.{
  System, Step, pushes, requests_stop, wakes, completes, signals, works, pops, suspends, worked,
  checks, looks, counts, adds_io, submits_io, reads, started, Reach, start, later,
}
use sheepcoro.Wakeup.Progress.{goes_on}
use sheepcoro.Wakeup.Blocked.{asleep, stays_asleep}
use sheepcoro.Wakeup.Overrun.{stay, onward, full, blocks_itself}

-- The thread with these tasks, this eventfd and this many operations started.
abbrev at : List Handle → (eventfd wait run sq inflight cq : ℕ) → Pc → System one_place
at t n wait run sq inflight cq p = record (started one_place t n 0) {
  num_io_wait_submit = wait;
  num_io_running = run;
  sq = sq;
  inflight = inflight;
  cq = cq;
  pc = p;
}

-- Task 5, submitted before the start, has been resumed and has started one operation.
started_operation :
    (scheduled : Bool) → Reach one_place scheduled (at [] task_flag 1 0 1 0 0 (running 0))
started_operation b =
    later (later (later (start (5 ∷ []) task_flag 0) (works refl refl)) (pops 0 5 [] refl refl))
      (adds_io refl)

-- The thread has read the count of the submission, run a turn without tasks, and sleeps.
waits_for_completion : (scheduled : Bool) → Reach one_place scheduled (at [] 0 0 1 0 1 0 reading)
waits_for_completion b =
    let r =
      later (later (later (started_operation b) (suspends 0 refl)) (worked refl)) (checks refl) in
    let r' = later (later r (submits_io 1 refl (omega arith))) (reads task_flag 0 refl refl) in
    later (later (later (later r' (works refl refl)) (worked refl)) (checks refl))
      (submits_io 0 refl (omega arith))

-- The state it sleeps in.
abbrev sleeping : System one_place
sleeping = at [] 0 0 1 0 1 0 reading

-- The kernel has completed the operation and signalled the eventfd, and the thread has read it.
peeks_completion : (scheduled : Bool) → Reach one_place scheduled (at [] 0 0 1 0 0 1 peeking)
peeks_completion b =
    later (later (later (waits_for_completion b) (completes 0 refl)) (signals 0 refl (omega arith)))
      (reads 1 0 refl refl)

-- Task 5 waits for task 6, which another thread submits before the thread reads the eventfd; after
-- the read, task 6 runs and wakes task 5, and nothing is left.
stops_after_read : Reach one_place false (at [] 0 0 0 0 0 0 stopping)
stops_after_read =
    let r = later (later (start (5 ∷ []) task_flag 0) (works refl refl)) (pops 0 5 [] refl refl) in
    let r' =
      later (later (later (later r (counts 1 refl)) (suspends 0 refl)) (worked refl))
        (checks refl) in
    let six =
      later (later (later r' (submits_io 0 refl (omega arith))) (pushes 6 (6 ∷ []) refl))
        (wakes 0 (2 ^ 45) refl (λ e. ground (arith, e)) refl) in
    let six' =
      later (later (later six (reads (2 ^ 45) 0 refl refl)) (works refl refl))
        (pops 0 6 [] refl refl) in
    later
      (later (later (later (later six' (counts 0 refl)) (suspends 0 refl)) (worked refl))
        (checks refl))
      (looks refl)

-- A third thread then pushes task 7.
abbrev pushed : System one_place
pushed = record (asleep (at [] 0 0 0 0 0 0 stopping)) { queue = 7 ∷ []; owed = 1 }

stays_asleep_example :
    Reach one_place false (asleep (at [] 0 0 0 0 0 0 stopping))
    × (pushed.pc ≡ reading)
    × (pushed.stop ≡ true)
    × (pushed.eventfd ≡ 0)
    × (pushed.owed ≡ 1)
stays_asleep_example =
    stays_asleep stops_after_read refl refl refl refl refl (pushes 7 (7 ∷ []) refl)

goes_on_example :
    (t : System one_place) × Step one_place true (at [] 0 0 1 0 0 1 peeking) t × (t.pc ≢ peeking)
goes_on_example =
    goes_on one_place-IsTaskQueue true (peeks_completion true) (λ e. ground (arith, e))
      (λ e. ground (arith, e)) (λ p e. ground (arith, e))

room_for_task :
    (t : List Handle)
    → one_place-IsTaskQueue.contents t ≡ []
    → (t' : List Handle) × (one_place.try_push 5 t ≡ (true, t'))
unfolding one_place-IsTaskQueue
room_for_task t e = (5 ∷ [], rw e refl)

five_queued : one_place-IsTaskQueue.contents (5 ∷ []) ≡ 5 ∷ []
unfolding one_place-IsTaskQueue
five_queued = refl

-- Where one context with room for one task blocks, and where another thread then stops it.
abbrev blocked : System one_place
blocked = full one_place-IsTaskQueue true 5 room_for_task (5 ∷ []) five_queued

abbrev stopped : System one_place
stopped = record blocked { stop = true; owed = suc blocked.owed }

blocks_itself_example :
    Reach one_place true blocked
    × (stopped.pc ≡ writing (running 0))
    × (wake_up stopped.eventfd ≡ none)
blocks_itself_example =
    blocks_itself one_place-IsTaskQueue true 5 room_for_task (5 ∷ []) five_queued
      (onward stay requests_stop)
