-- ===== src/Latch.antt =====
-- include/coro/comp/latch.hpp
pub mod Opens
pub mod System
pub mod Timely
mod Tests
use sheepcoro.Base.{
  ℕ, zero, suc, ◌+◌, ◌-◌, ◌%◌, ◌^◌, Bool, true, false, ◌||◌, Option, none, some, ◌==◌, leb,
  if◌then◌else◌,
}
use sheepcoro.Awaiters.{Awaiters}
use sheepcoro.Event.{Event, event_base, set_state}

-- `count` is the bit pattern of the int64_t m_count.
pub record Latch : Type 0 where
  pub count : ℕ
  pub event : Event
  pub open event use *

-- The constructor: `count` is a uint64_t.
unfoldable pub latch : (count : ℕ) → Awaiters → Latch
latch count h = record { count = count; event = event_base (leb count 0) h }

-- `v <= 1` for the int64_t with the bit pattern v.
abbrev pub is_last : ℕ → Bool
is_last v = leb v 1 || leb (2 ^ 63) v

-- `m_count.fetch_sub(1) <= 1`
unfoldable pub fetch_sub : Latch → Bool × Latch
fetch_sub l = (is_last l.count, record l { count = (l.count + 2 ^ 64 - 1) % 2 ^ 64 })

-- `count_down`; `none` means that the fuel of `set_state` ran out.
unfoldable pub count_down : (fuel : ℕ) → Latch → Option Latch
unfolding fetch_sub
count_down fuel l =
    let (last, l') = fetch_sub l in
    if last
    then (elim (set_state fuel l'.event) [ none ↦ none | some e ↦ some (record l' { event = e }) ])
    else some l'

-- `count_down`, called n times.
unfoldable pub count_downs : (fuel n : ℕ) → Latch → Option Latch
unfolding count_down
count_downs fuel zero l = some l
count_downs fuel (suc n) l = elim (count_downs fuel n l) [
  | none ↦ none
  | some l' ↦ count_down fuel l'
]
