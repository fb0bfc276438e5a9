-- ===== src/Latch/Tests.antt =====
-- Runs and witnesses for Latch.antt.
use sheepcoro.Base.{◌≡◌, refl, true, false, not, ◌||◌, leb, ◌==◌, some, [], ◌∷◌, arith}
use sheepcoro.Awaiters.{Ptr, null, Awaiters}
use sheepcoro.Event.{this, await_ready, register_load, register_cas, set_exchange}
use sheepcoro.Event.System.{walking, ready_test, load, cas, set}
use sheepcoro.Event.Late.{late}
use sheepcoro.Latch.{Latch, latch, fetch_sub, count_downs}
use sheepcoro.Latch.System.{Counted, waits, counts_down, sets, LatchReach, fresh, later}
use sheepcoro.Latch.Timely.{opens_on_time}
use sheepcoro.Latch.Opens.{opened, count_downs_lem}

abbrev no_waits : Awaiters
no_waits = record { next = λ _. null; ctx = λ _. 0; num_wait = λ _. 0; submitted = [] }

zero_is_open : (latch 0 no_waits).state ≡ this
unfolding latch
zero_is_open = refl

-- A count of two, and awaiter 5 waits.
abbrev waiting : Latch
waiting = record { count = 2; event = record { state = 5; awaiters = no_waits } }

count_downs_lem_example :
    count_downs 1 2 waiting ≡ some (record { count = 0; event = opened waiting.event (5 ∷ []) })
count_downs_lem_example =
    count_downs_lem 1 2 (5 ∷ []) waiting (omega arith) (omega arith) (omega arith) (omega arith)
      (omega arith) (omega arith)

-- A latch for two, on which coroutine 5 waits: threads 8 and 9 count it down, and 9 opens it.
abbrev Opening : Type 0
Opening =
    (s : Counted) × LatchReach 2 no_waits s
    × ((k : Ptr) → s.setting k ≡ false)
    × (s.calls ≡ 2)
    × (s.events.pc 9 ≡ walking 5)

opening : Opening
unfolding await_ready register_load register_cas set_exchange latch fetch_sub
opening = (
  _,
  later
      (later
        (later
          (later
            (later (later fresh (waits _ (ready_test 5 false _ (omega arith) refl refl) refl))
              (waits _ (load 5 null _ refl refl) refl))
            (waits _ (cas 5 true _ refl refl) refl))
          (counts_down 8 false _ refl (omega arith) refl))
        (counts_down 9 true _ refl (omega arith) refl))
      (sets 9 _ (set 9 5 _ refl refl) refl refl),
  λ k. ground arith,
  refl,
  refl,
)

opens_on_time_example :
    ((opening.0.events.state == this) ≡ leb 2 opening.0.calls)
    × ((not (late (opening.0.events.pc 9)) || leb 2 opening.0.calls) ≡ true)
opens_on_time_example = opens_on_time 2 (omega arith) (omega arith) opening.1 opening.2 9
