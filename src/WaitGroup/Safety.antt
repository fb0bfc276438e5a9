-- ===== src/WaitGroup/Safety.antt =====
-- What `done` does to the waiters, and the wake-up that can be lost.
use sheepcoro.Base.{
  ℕ, zero, suc, ◌-◌, ◌^◌, ◌≤◌, ◌<◌, ◌≡◌, Bool, true, false, some, List, [], ◌∷◌, ◌++◌, arith,
  length, ◌==◌, if◌then◌else◌,
}
use mathlib.Core.List.{append-nil, append_assoc}
use sheepcoro.Awaiters.{Ptr, null, Awaiters, submit_task}
use sheepcoro.Awaiters.Chain.{Chain}
use sheepcoro.WaitGroup.{
  WaitGroup, count_is_zero, load_head, push_awaiter, count_down, take_awaiters, resume_awaiters,
  done,
}
use sheepcoro.WaitGroup.System.{
  Pc, idle, checking, suspended, taking, walking, advancing, System, test, load, push, dones, take,
  walk_end, Run, here, then_step,
}

-- With a round for each awaiter the loop of `done` submits exactly the awaiters of the list.
resume_awaiters_lem :
    (fuel : ℕ) (p : Ptr) (w : List Ptr) (h : Awaiters)
    → Chain h.next p w
    → length w ≤ fuel
    → resume_awaiters fuel p h ≡ some (record h { submitted = h.submitted ++ w })
unfolding resume_awaiters
resume_awaiters_lem zero p [] h c f = ground (arith, append-nil h.submitted)
resume_awaiters_lem zero p (x ∷ w) h c f = absurd (omega arith)
resume_awaiters_lem (suc fuel) p [] h c f = ground (arith, append-nil h.submitted)
resume_awaiters_lem (suc fuel) p (x ∷ w) h c f = ground (
  arith,
  append_assoc h.submitted (x ∷ []) w,
  resume_awaiters_lem fuel (h.next x) w (submit_task x h),
)

-- `done` takes one from the count, which wraps below zero. The last one, run with no other thread in between and with a
-- round for each waiter, also submits every waiter once, the last to arrive first, and leaves the
-- list empty; any other changes nothing else.
pub done_lem :
    (fuel : ℕ) (w : List Ptr) (g : WaitGroup)
    → Chain g.next g.state w
    → length w ≤ fuel
    → g.count < 2 ^ 32
    → done fuel g
      ≡ some (record {
        count = if g.count == 0 then 2 ^ 32 - 1 else g.count - 1;
        state = if g.count == 1 then null else g.state;
        awaiters = record g.awaiters {
          submitted = if g.count == 1 then g.submitted ++ w else g.submitted;
        };
      })
unfolding done
done_lem fuel w g c f small = ground (arith, resume_awaiters_lem fuel g.state w g.awaiters)

-- The coroutine is in `done` and may still resume waiters.
abbrev pub releases : Pc → Bool
releases taking = true
releases (walking _) = true
releases (advancing _) = true
releases _ = false

-- The count is zero and nobody is in the second half of `done`.
pub record IsOver (s : System) : Type 0 where
  pub zero_count : s.count ≡ 0
  pub quiet : (k : Ptr) → releases (s.pc k) ≡ false

-- The group when `done` comes between the load and the compare-exchange of coroutine i.
abbrev loaded : Ptr → WaitGroup → WaitGroup
unfolding load_head
loaded i g = (load_head i g).1

abbrev counted : Ptr → WaitGroup → WaitGroup
unfolding count_down load_head
counted i g = (count_down (loaded i g)).1

abbrev taken : Ptr → WaitGroup → WaitGroup
unfolding count_down load_head take_awaiters
taken i g = (take_awaiters (counted i g)).1

abbrev pushed : Ptr → WaitGroup → WaitGroup
unfolding count_down load_head take_awaiters push_awaiter
pushed i g = (push_awaiter i null (taken i g)).1

-- A wake-up can be lost: whenever one `done` is outstanding, nobody else is in the second half of
-- `done`, the list is empty and a coroutine is at the head of the loop of `await_suspend`, a run
-- exists after which that `done` has returned, the count is zero, and the coroutine has suspended
-- itself.
pub wakeup_can_be_lost :
    (s : System) (i k : Ptr)
    → s.count ≡ 1
    → ((j : Ptr) → releases (s.pc j) ≡ false)
    → s.pc i ≡ checking
    → s.pc k ≡ idle
    → s.state ≡ null
    → (t : System) × Run s t × IsOver t × (t.pc i ≡ suspended) × (t.pc k ≡ idle)
unfolding count_is_zero load_head push_awaiter count_down take_awaiters
wakeup_can_be_lost s i k one quiet ci ck empty = (
  _,
  then_step
      (then_step
        (then_step
          (then_step
            (then_step (then_step here (test i false ci (ground arith)))
              (load i null (loaded i s.group) (ground arith) (ground arith)))
            (dones k true (counted i s.group) (ground arith) (ground arith)))
          (take k null (taken i s.group) (ground arith) (ground arith)))
        (walk_end k (ground arith)))
      (push i {head = null} true (pushed i s.group) (ground arith) (ground arith)),
  record { zero_count = ground arith; quiet = λ j. ground (arith, quiet j) },
  ground arith,
  ground arith,
)
