-- ===== src/Event/System.antt =====
-- Coroutines over one event, on any number of threads: each step is one atomic access of a function
-- of src/comp/event.cpp. An awaiter waits once. Once it has finished, its memory may be reused at
-- any time but between the submit of its coroutine by `resume_all_awaiter` and the read of its
-- m_next there; nothing in the source keeps it from being reused then.
use sheepcoro.Base.{◌≤◌, ◌≡◌, ◌≢◌, Bool, true, false, none, some, [], ◌==◌, if◌then◌else◌}
use sheepcoro.Awaiters.{Ptr, null, update, Awaiters, submit_task}
use sheepcoro.Event.{
  this, Event, event_base, await_ready, await_resume, register_load, register_cas, set_exchange,
}

pub data Pc : Type 0 where
  idle : Pc
  registering : Pc  -- at the head of the loop of `register_awaiter`
  trying : (old_value : Ptr) → Pc  -- between its load and its compare-exchange
  suspended : Pc
  ready : Pc  -- not suspended: `await_resume` runs next
  woken : Pc  -- its handle has been submitted: `await_resume` runs next
  finished : (resumed : Bool) → Pc  -- past `await_resume`, resumed by a setter or never suspended
  walking : (waiter : Ptr) → Pc  -- at the head of the loop of `resume_all_awaiter`
  advancing : (cur : Ptr) → Pc  -- past the submit, before the read of m_next

pub record System : Type 0 where
  pub event : Event
  pub open event use *
  pub pc : Ptr → Pc

abbrev pub after_ready : Bool → Pc
after_ready true = ready
after_ready false = registering

abbrev pub after_cas : Bool → Pc
after_cas true = suspended
after_cas false = registering

pub data Step (s : System) : System → Type 0 where
  ready_test :
      (i : Ptr) (b : Bool) (e : Event)
      → 2 ≤ i
      → s.pc i ≡ idle
      → await_ready i s.event ≡ (b, e)
      → Step s (record { event = e; pc = update s.pc i (after_ready b) })
  load_set :
      (i : Ptr) (e : Event)
      → s.pc i ≡ registering
      → register_load i s.event ≡ (none, e)
      → Step s (record { event = e; pc = update s.pc i ready })
  load :
      (i v : Ptr) (e : Event)
      → s.pc i ≡ registering
      → register_load i s.event ≡ (some v, e)
      → Step s (record { event = e; pc = update s.pc i (trying v) })
  cas :
      (i : Ptr) {v : Ptr} (b : Bool) (e : Event)
      → s.pc i ≡ trying v
      → register_cas i v s.event ≡ (b, e)
      → Step s (record { event = e; pc = update s.pc i (after_cas b) })
  -- a weak compare-exchange may fail for no reason
  spurious :
      (i : Ptr) {v : Ptr} → s.pc i ≡ trying v → Step s (record s { pc = update s.pc i registering })
  resume_ready :
      (i : Ptr)
      → s.pc i ≡ ready
      → Step s (record { event = await_resume i s.event; pc = update s.pc i (finished false) })
  resume_woken :
      (i : Ptr)
      → s.pc i ≡ woken
      → Step s (record { event = await_resume i s.event; pc = update s.pc i (finished true) })
  set :
      (k flag : Ptr) (e : Event)
      → s.pc k ≡ idle
      → set_exchange s.event ≡ (flag, e)
      → Step s
          (record { event = e; pc = update s.pc k (if flag == this then idle else walking flag) })
  walk_end : (k : Ptr) → s.pc k ≡ walking null → Step s (record s { pc = update s.pc k idle })
  walk :
      (k : Ptr) {c : Ptr}
      → s.pc k ≡ walking c
      → c ≢ null
      → Step s (record {
        event = record s.event { awaiters = submit_task c s.awaiters };
        pc = update (update s.pc k (advancing c)) c woken;
      })
  advance :
      (k : Ptr) {c : Ptr}
      → s.pc k ≡ advancing c
      → Step s (record s { pc = update s.pc k (walking (s.next c)) })
  -- the frame of a coroutine past its wait is gone, and something else is written where m_next was
  reuses :
      (i v : Ptr) {b : Bool}
      → s.pc i ≡ finished b
      → ((k : Ptr) → s.pc k ≢ advancing i)
      → Step s (record s {
        event = record s.event { awaiters = record s.event.awaiters { next = update s.next i v } };
      })

-- The log of submitted handles starts empty.
pub data Reach (b : Bool) (h : Awaiters) : System → Type 0 where
  start : Reach b h (record { event = event_base b (record h { submitted = [] }); pc = λ _. idle })
  later : {s t : System} → Reach b h s → Step s t → Reach b h t
