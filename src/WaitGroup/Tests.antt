-- ===== src/WaitGroup/Tests.antt =====
-- Runs and witnesses for WaitGroup.antt.
use sheepcoro.Base.{◌≡◌, refl, arith, false, some, [], ◌∷◌}
use sheepcoro.Awaiters.{Ptr, null, update, Awaiters}
use sheepcoro.WaitGroup.{WaitGroup, wait_group, done, add, await_suspend}
use sheepcoro.WaitGroup.System.{Pc, idle, checking, suspended, System, Step, suspend, Run}
use sheepcoro.WaitGroup.Safety.{done_lem, releases, IsOver, wakeup_can_be_lost}

abbrev no_waits : Awaiters
no_waits = record { next = λ _. null; ctx = λ _. 0; num_wait = λ _. 0; submitted = [] }

-- Awaiter 3 has arrived after awaiter 2.
abbrev two_waiters : WaitGroup
two_waiters = record {
  count = 1;
  state = 3;
  awaiters = record no_waits { next = update (λ _. null) 3 2 };
}

add_then_done : done 0 (add 2 (wait_group 0 no_waits)) ≡ some (wait_group 1 no_waits)
unfolding done add
add_then_done = refl

done_lem_example :
    done 2 two_waiters
    ≡ some (record {
      count = 0;
      state = null;
      awaiters = record two_waiters.awaiters { submitted = 3 ∷ 2 ∷ [] };
    })
done_lem_example = done_lem 2 (3 ∷ 2 ∷ []) two_waiters (omega arith) (omega arith) (omega arith)

abbrev pcs : Ptr → Pc
pcs = update (λ _. idle) 2 checking

abbrev arriving : System
arriving = record { group = wait_group 1 no_waits; pc = pcs }

quiet_pcs : (j : Ptr) → releases (pcs j) ≡ false
quiet_pcs j = ground arith

wakeup_can_be_lost_example :
    (t : System) × Run arriving t × IsOver t × (t.pc 2 ≡ suspended) × (t.pc 3 ≡ idle)
wakeup_can_be_lost_example = wakeup_can_be_lost arriving 2 3 refl quiet_pcs refl refl refl

abbrev asleep : System
asleep = record { group = wait_group 0 no_waits; pc = update (λ _. idle) 2 suspended }

asleep-IsOver : IsOver asleep
asleep-IsOver = record { zero_count = refl; quiet = λ k. ground arith }

abbrev joined : System
joined = record { group = await_suspend 3 asleep.group; pc = update asleep.pc 3 checking }

joins : Step asleep joined
joins = suspend 3 (omega arith) refl
