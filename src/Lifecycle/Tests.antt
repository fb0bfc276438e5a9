-- ===== src/Lifecycle/Tests.antt =====
-- Runs and witnesses for Lifecycle.antt.
use sheepcoro.Base.{
  ℕ, suc, ◌+◌, ◌^◌, ◌≡◌, refl, ap, ◌∙◌, Bool, true, false, ◌||◌, Option, none, some, List, [], ◌∷◌,
  arith, ◌==◌, ltb, if◌then◌else◌, count, Bool-cases, inl, inr,
}
use sheepcoro.Engine.{Handle, Program, Engine, process_work, poll_submit}
use sheepcoro.Engine.Loop.{Turn, Context, run}
use sheepcoro.Engine.OnePlace.{one_place, one_place-IsTaskQueue}
use sheepcoro.FixedFds.{Uring, init_fds}
use sheepcoro.FixedFds.Buffer.{init, set_data}
use sheepcoro.Lifecycle.{
  Os, Proxy, construct, open_nulls, init_nulls, init_ring, init_proxy, Machine, init_engine, thread,
  IsOs,
}
use sheepcoro.Lifecycle.Whole.{thread_lem}

-- The descriptors below `next` are open unless they have been shut again.
record Sys : Type 0 where
  next : ℕ
  shut : ℕ → Bool
  ring_up : Bool

abbrev open_next : Sys → Option ℕ × Sys
open_next t = (
  some t.next,
  record t { next = suc t.next; shut = λ j. if j == t.next then false else t.shut j },
)

abbrev no_files : Uring
no_files = record {
  State = Sys;
  table = λ t j. 0;
  register_files = λ fds nr t. some t;
  update_files = λ off fds nr t. (none, t);
  fixed_file = 1;
}

close_in : Option ℕ → Sys → Sys
close_in none t = t
close_in (some fd) t = record t { shut = λ j. (j == fd) || t.shut j }

bind_in : Option ℕ → Sys → Bool × Sys
bind_in none t = (false, t)
bind_in (some fd) t = (true, t)

abbrev calls : Os no_files
calls = record {
  eventfd = open_next;
  open_null = open_next;
  close = close_in;
  queue_init_params = λ n t. (true, record t { ring_up = true });
  register_eventfd = bind_in;
  queue_exit = λ t. record t { ring_up = false };
}

abbrev is_open : Sys → ℕ → ℕ
is_open t j = if ltb j t.next then (if t.shut j then 0 else 1) else 0

opened_next :
    (t t' : Sys) (fd : ℕ)
    → open_next t ≡ (some fd, t')
    → ((j : ℕ) → is_open t' j ≡ count j (fd ∷ []) + is_open t j) × (t'.ring_up ≡ t.ring_up)
opened_next t t' fd e =
    let new : t'
        ≡ record t { next = suc t.next; shut = λ j. if j == t.next then false else t.shut j } =
      ground (arith, e) in
    let at_next : fd ≡ t.next = ground (arith, e) in
    (λ j. ap (λ x. is_open x j) new ∙ ground (arith, at_next), ap (λ x. x.ring_up) new)

shut_less :
    (t : Sys) (fd : ℕ)
    → is_open t fd ≡ 1
    → (j : ℕ) → is_open t j ≡ count j (fd ∷ []) + is_open (close_in (some fd) t) j
unfolding close_in
shut_less t fd e j = elim (Bool-cases (j == fd)) [
  | inl y ↦ (let same : j ≡ fd = ground (arith, y) in rw same (ground (arith, e)))
  | inr y ↦ ground (arith, y)
]

kept : (t t' : Sys) → t' ≡ t → ((j : ℕ) → is_open t' j ≡ is_open t j) × (t'.ring_up ≡ t.ring_up)
kept t t' e = (λ j. ap (λ x. is_open x j) e, ap (λ x. x.ring_up) e)

bound_kept :
    (efd : Option ℕ) (t t' : Sys)
    → bind_in efd t ≡ (true, t')
    → ((j : ℕ) → is_open t' j ≡ is_open t j) × (t'.ring_up ≡ t.ring_up)
unfolding bind_in
bound_kept none t t' e = absurd (ground (arith, e))
bound_kept (some fd) t t' e = kept t t' (ground (arith, e))

calls-IsOs : IsOs calls
unfolding close_in bind_in
calls-IsOs = record {
  opens = is_open;
  ring = λ t. t.ring_up;
  once = λ t j. ground arith;
  eventfd_opens = opened_next;
  null_opens = opened_next;
  closes = λ t fd e. (shut_less t fd e, refl);
  sets_up = λ n t t' e. kept (record t { ring_up = true }) t' (ground (arith, e));
  binds = bound_kept;
  binds_open = λ t t' e. absurd (ground (arith, e));
  registers = λ fds nr t t' e. kept t t' (ground (arith, e));
  exits = λ t. (λ j. refl, refl);
}

-- The descriptors 0 to 2 are open.
abbrev before : Sys
before = record { next = 3; shut = λ j. false; ring_up = false }

abbrev or_else : Proxy calls → Option (Proxy calls) → Proxy calls
or_else p none = p
or_else p (some p') = p'

abbrev closed : Proxy calls
closed = record {
  efd = none;
  null_fds = [];
  files = record { uring = before; null_fds = λ j. 0; fds = record { slots = λ j. 0; que = [] } };
}

made : Proxy calls
unfolding construct
made = or_else closed (construct calls (λ j. 0) before)

ready : Proxy calls
unfolding made construct init_proxy init_ring init_nulls open_nulls init_fds init set_data bind_in
ready = or_else closed (init_proxy calls 4 made)

-- A coroutine does nothing and is done; a callback never runs.
abbrev quiet : Program
quiet = record {
  State = ℕ;
  resume = λ h s. ([], true, s);
  is_detached = λ h s. true;
  callback = λ cqe s. ([], s);
}

-- Task 5 has been submitted before the thread starts.
abbrev loaded : Machine calls one_place quiet
loaded = record {
  engine = record {
    task_queue = 5 ∷ [];
    num_io_wait_submit = 0;
    num_io_running = 0;
    recursive_depth = 0;
    working = true;
    eventfd = 2 ^ 44;
    coroutines = 0;
    submitted = 5 ∷ [];
    resumed = [];
    discarded = [];
    destroyed = [];
  };
  proxy = made;
}

abbrev or_loaded : Option (Machine calls one_place quiet) → Machine calls one_place quiet
or_loaded none = loaded
or_loaded (some m) = m

started : Machine calls one_place quiet
unfolding made ready construct init_engine init_proxy init_ring init_nulls open_nulls init_fds init
    set_data bind_in
started = or_loaded (init_engine calls one_place quiet loaded)

abbrev two_turns : List Turn
two_turns =
    record { stop = false; num_wait = 0; cnt = 2 ^ 44; peek = λ n. [] }
    ∷ record { stop = false; num_wait = 0; cnt = 0; peek = λ n. [] }
    ∷ []

ended : Context one_place quiet
unfolding started run process_work poll_submit
ended = or_first (run one_place quiet 4096 two_turns (first started.engine))
  where
    first : Engine one_place quiet → Context one_place quiet
    first e = record { engine = e; stop_requested = false }

    or_first : Option (Context one_place quiet) → Context one_place quiet
    or_first none = first started.engine
    or_first (some c) = c

thread_lem_example :
    (n : Machine calls one_place quiet) × (thread calls one_place quiet [] 4096 two_turns loaded
      ≡ some n)
    × ((j : Handle)
        → count j n.engine.submitted ≡ count j n.engine.resumed + count j n.engine.discarded)
    × ((j : ℕ) → is_open n.proxy.files.uring j ≡ is_open before j)
    × (n.proxy.files.uring.ring_up ≡ false)
    × (init_engine calls one_place quiet n ≡ none)
unfolding made ready started ended construct init_engine init_proxy init_ring init_nulls open_nulls
    init_fds init set_data bind_in run process_work poll_submit calls-IsOs one_place-IsTaskQueue
thread_lem_example =
    thread_lem calls-IsOs one_place-IsTaskQueue quiet [] 4096 two_turns (λ j. 0) before loaded
      started ended refl (λ j. omega arith) refl (omega arith) (omega arith, (omega arith, tt)) refl
      refl
