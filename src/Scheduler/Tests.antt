-- ===== src/Scheduler/Tests.antt =====
-- Runs and witnesses for Scheduler.antt.
use sheepcoro.Base.{ℕ, ◌<◌, ◌≡◌, refl, true, false, arith}
use sheepcoro.Scheduler.{
  init_impl, init, dispatch, choose_ctx, set_flag, add_token, give_task, clear_flag, sub_token,
  stop_impl,
}
use sheepcoro.Scheduler.Sums.{sum}
use sheepcoro.Scheduler.RoundRobin.{after_calls, each_in_turn}
use sheepcoro.Scheduler.System.{
  idle, chosen, flagged, outside, cleared, System, choose, flag, count_in, give, clear, count_out,
  Reach, start, later, Run,
}
use sheepcoro.Scheduler.Safety.{token_counts_busy, stop_when_idle, stops_while_submitting}

fresh_token : (init_impl 4).stop_token ≡ 4
unfolding init_impl
fresh_token = refl

beginning : Reach 2 (record { scheduler = init_impl 2; pc = λ _. idle; callback = λ _. outside })
beginning = start

token_counts_busy_example : (init_impl 2).stop_token ≡ sum 2 (init_impl 2).stop_flag
token_counts_busy_example =
    token_counts_busy (omega arith) (omega arith) beginning (λ j. refl) (λ i. refl)

-- The second of two contexts has gone idle, and a thread has chosen it; the first is busy.
abbrev Late : Type 0
Late =
    (s : System) × Reach 2 s
    × (s.pc 7 ≡ chosen 1)
    × (s.callback 0 ≡ outside)
    × (s.stop_token ≡ 1)
    × (s.stop_flag 0 ≡ 1)
    × (s.stop_flag 1 ≡ 0)
    × (s.ctx_cnt ≡ 2)

late : Late
unfolding init_impl init choose_ctx dispatch set_flag add_token give_task clear_flag sub_token
    stop_impl
late = (
  _,
  later
      (later
        (later
          (later
            (later (later (later start (choose 7 0 _ refl refl)) (flag 7 0 1 _ refl refl))
              (count_in 7 0 1 refl))
            (give 7 0 3 refl))
          (choose 7 1 _ refl refl))
        (clear 1 1 _ (omega arith) refl refl))
      (count_out 1 1 false _ refl refl),
  refl,
  refl,
  refl,
  refl,
  refl,
  refl,
)

stops_while_submitting_example :
    (t : System) × Run late.0 t
    × ((m : ℕ) → m < late.0.ctx_cnt → t.notified m ≡ true)
    × (t.stop_flag 1 ≡ 1)
    × (t.pc 7 ≡ flagged 1 0)
    × (t.given ≡ late.0.given)
stops_while_submitting_example =
    stops_while_submitting late.1 0 7 1 late.4 (rw late.7 (omega arith)) late.5 late.3 late.2
      (omega arith) late.6

-- The callback of the only context is about to stop the scheduler.
abbrev Ending : Type 0
Ending =
    (s : System) × Reach 1 s
    × (s.callback 0 ≡ cleared 1)
    × ((j : ℕ) → s.pc j ≡ idle)
    × ((sub_token 1 s.scheduler).0 ≡ true)

ending : Ending
unfolding init_impl init clear_flag sub_token stop_impl
ending = (_, later start (clear 0 1 _ (omega arith) refl refl), refl, λ j. refl, refl)

stop_when_idle_example : ending.0.stop_flag 0 ≡ 0
stop_when_idle_example =
    stop_when_idle (omega arith) (omega arith) ending.1 0 1 ending.2 (λ j. rw (ending.3 j) refl)
      ending.4 0 (omega arith)

each_in_turn_example :
    (k : ℕ) × (k < 3) × ((dispatch (after_calls k (record { ctx_cnt = 3; cur = 7 }))).0 ≡ 0)
each_in_turn_example = each_in_turn (record { ctx_cnt = 3; cur = 7 }) 0 (omega arith) (omega arith)
