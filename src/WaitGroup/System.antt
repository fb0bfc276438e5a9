-- ===== src/WaitGroup/System.antt =====
-- Coroutines over one wait group, on any number of threads: each step is one atomic access of a
-- function of src/comp/wait_group.cpp.
use sheepcoro.Base.{ℕ, ◌≤◌, ◌≡◌, ◌≢◌, Bool, true, false}
use sheepcoro.Awaiters.{Ptr, null, update, submit_task}
use sheepcoro.WaitGroup.{
  WaitGroup, await_suspend, await_resume, count_is_zero, load_head, push_awaiter, add, count_down,
  take_awaiters,
}

pub data Pc : Type 0 where
  idle : Pc
  checking : Pc  -- at the head of the loop of `await_suspend`
  loading : Pc  -- past the test of the count, which was not zero
  trying : (head : Ptr) → Pc  -- past the load, before the compare-exchange
  suspended : Pc
  ready : Pc  -- not suspended: `await_resume` runs next
  woken : Pc  -- its handle has been submitted: `await_resume` runs next
  finished : Pc
  taking : Pc  -- in `done`, past the last decrement
  walking : (head : Ptr) → Pc  -- at the head of the loop of `done`
  advancing : (head : Ptr) → Pc  -- past the resume, before the read of m_next

pub record System : Type 0 where
  pub group : WaitGroup
  pub open group use *
  pub pc : Ptr → Pc

abbrev pub after_test : Bool → Pc
after_test true = ready
after_test false = loading

abbrev pub after_push : Bool → Pc
after_push true = suspended
after_push false = checking

abbrev pub after_done : Bool → Pc
after_done true = taking
after_done false = idle

pub data Step (s : System) : System → Type 0 where
  suspend :
      (i : Ptr)
      → 2 ≤ i
      → s.pc i ≡ idle
      → Step s (record { group = await_suspend i s.group; pc = update s.pc i checking })
  test :
      (i : Ptr) (b : Bool)
      → s.pc i ≡ checking
      → count_is_zero s.group ≡ b
      → Step s (record s { pc = update s.pc i (after_test b) })
  load :
      (i head : Ptr) (g : WaitGroup)
      → s.pc i ≡ loading
      → load_head i s.group ≡ (head, g)
      → Step s (record { group = g; pc = update s.pc i (trying head) })
  push :
      (i : Ptr) {head : Ptr} (b : Bool) (g : WaitGroup)
      → s.pc i ≡ trying head
      → push_awaiter i head s.group ≡ (b, g)
      → Step s (record { group = g; pc = update s.pc i (after_push b) })
  -- a weak compare-exchange may fail for no reason
  spurious :
      (i : Ptr) {head : Ptr}
      → s.pc i ≡ trying head
      → Step s (record s { pc = update s.pc i checking })
  resume_ready :
      (i : Ptr)
      → s.pc i ≡ ready
      → Step s (record { group = await_resume i s.group; pc = update s.pc i finished })
  resume_woken :
      (i : Ptr)
      → s.pc i ≡ woken
      → Step s (record { group = await_resume i s.group; pc = update s.pc i finished })
  adds : (k : Ptr) (cnt : ℕ) → s.pc k ≡ idle → Step s (record s { group = add cnt s.group })
  dones :
      (k : Ptr) (b : Bool) (g : WaitGroup)
      → s.pc k ≡ idle
      → count_down s.group ≡ (b, g)
      → Step s (record { group = g; pc = update s.pc k (after_done b) })
  take :
      (k head : Ptr) (g : WaitGroup)
      → s.pc k ≡ taking
      → take_awaiters s.group ≡ (head, g)
      → Step s (record { group = g; pc = update s.pc k (walking head) })
  walk_end : (k : Ptr) → s.pc k ≡ walking null → Step s (record s { pc = update s.pc k idle })
  walk :
      (k : Ptr) {c : Ptr}
      → s.pc k ≡ walking c
      → c ≢ null
      → Step s (record {
        group = record s.group { awaiters = submit_task c s.awaiters };
        pc = update (update s.pc k (advancing c)) c woken;
      })
  advance :
      (k : Ptr) {c : Ptr}
      → s.pc k ≡ advancing c
      → Step s (record s { pc = update s.pc k (walking (s.next c)) })

-- A run from one state to another.
pub data Run (s : System) : System → Type 0 where
  here : Run s s
  then_step : {t u : System} → Run s t → Step t u → Run s u
