-- ===== src/Latch/System.antt =====
-- Coroutines that wait on a latch and threads that count it down, with one step for each atomic
-- access. There are fewer than 2 ^ 63 calls of count_down.
use sheepcoro.Base.{ℕ, suc, ◌^◌, ◌<◌, ◌≡◌, Bool, true, false, none, some, []}
use sheepcoro.Awaiters.{Ptr, update, Awaiters}
use sheepcoro.Event.System.{System, idle, Step}
use sheepcoro.Event.Valued.{setter_of}
use sheepcoro.Latch.{Latch, latch, fetch_sub}

-- `calls` counts the calls of count_down, and `setting` tells which thread is past a fetch_sub that
-- was the last one and has not yet set the event.
pub record Counted : Type 0 where
  pub events : System
  pub count : ℕ
  pub calls : ℕ
  pub setting : Ptr → Bool

-- The latch of a state.
abbrev pub latch_of : Counted → Latch
latch_of s = record { count = s.count; event = s.events.event }

pub data LatchStep (s : Counted) : Counted → Type 0 where
  waits :
      (t : System) (e : Step s.events t)
      → setter_of e ≡ none
      → LatchStep s (record s { events = t })
  counts_down :
      (k : Ptr) (last : Bool) (l : Latch)
      → s.setting k ≡ false
      → suc s.calls < 2 ^ 63
      → fetch_sub (latch_of s) ≡ (last, l)
      → LatchStep s
          (record s { count = l.count; calls = suc s.calls; setting = update s.setting k last })
  sets :
      (k : Ptr) (t : System) (e : Step s.events t)
      → setter_of e ≡ some k
      → s.setting k ≡ true
      → LatchStep s (record s { events = t; setting = update s.setting k false })

pub data LatchReach (n : ℕ) (h : Awaiters) : Counted → Type 0 where
  fresh : LatchReach n h (record {
    events = record { event = (latch n (record h { submitted = [] })).event; pc = λ _. idle };
    count = (latch n h).count;
    calls = 0;
    setting = λ _. false;
  })
  later : {s t : Counted} → LatchReach n h s → LatchStep s t → LatchReach n h t
