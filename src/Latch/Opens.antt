-- ===== src/Latch/Opens.antt =====
-- When the latch of include/coro/comp/latch.hpp opens.
use sheepcoro.Base.{
  ℕ, zero, suc, ◌+◌, ◌-◌, ◌%◌, ◌^◌, ◌≤◌, ◌<◌, ◌≡◌, ◌≢◌, refl, some, List, ◌++◌, length, arith, leb,
  if◌then◌else◌,
}
use sheepcoro.Awaiters.{Ptr}
use sheepcoro.Awaiters.Chain.{Chain}
use sheepcoro.Event.{this, Event}
use sheepcoro.Event.Safety.{set_state_lem}
use sheepcoro.Latch.{Latch, fetch_sub, count_down, count_downs}

-- The event when the waiters `w` have been resumed.
abbrev pub opened : Event → List Ptr → Event
opened e w = record { state = this; awaiters = record e.awaiters { submitted = e.submitted ++ w } }

-- A latch with a count from 1 to 2 ^ 63 - 1, whose event is not set and has waiters `w`, with a round
-- of fuel for each, opens with the count_down that takes the count to zero: after n < 2 ^ 63 calls
-- it is open when n has reached the count, and then the waiters have been resumed once; before, its
-- event is as it was.
pub count_downs_lem :
    (fuel n : ℕ) (w : List Ptr) (l : Latch)
    → Chain l.next l.state w
    → length w ≤ fuel
    → l.state ≢ this
    → 0 < l.count
    → l.count < 2 ^ 63
    → n < 2 ^ 63
    → count_downs fuel n l
      ≡ some (record {
        count = (l.count + 2 ^ 64 - n) % 2 ^ 64;
        event = if leb l.count n then opened l.event w else l.event;
      })
unfolding count_downs count_down fetch_sub
count_downs_lem fuel zero w l c enough unset pos small bound = ground arith
count_downs_lem fuel (suc n) w l c enough unset pos small bound = ground (
  arith,
  count_downs_lem fuel n w l c enough unset pos small (omega arith),
  set_state_lem fuel w l.event (λ _. (c, enough)),
  set_state_lem fuel w (opened l.event w) (λ h. absurd (h refl)),
)
