-- ===== src/Lifecycle.antt =====
-- How an engine comes and goes: the constructor, `init` and `deinit` of uring_proxy
-- (include/coro/uring_proxy.hpp), of engine (src/engine.cpp) and of context (src/context.cpp). The
-- calls of the system and of io_uring are a parameter.
pub mod Descriptors
pub mod Whole
mod Tests
use sheepcoro.Base.{
  ℕ, zero, suc, ◌+◌, ◌-◌, ◌≤◌, ◌≡◌, ◌≢◌, Bool, true, false, not, Option, none, some, List, [], ◌∷◌,
  ◌==◌, if◌then◌else◌, count,
}
use sheepcoro.Engine.{TaskQueue, Program, Engine}
use sheepcoro.Engine.Loop.{Turn, Context, run}
use sheepcoro.FixedFds.{Uring, UringProxy, init_fds, fix_fd_array_size}

-- config::kEntryLength
abbrev pub entry_length : ℕ
entry_length = 10240

-- The other calls of the system, on the state of io_uring. A descriptor is none where it is
-- negative; a call that gives a Bool says whether its result was 0.
pub record Os (k : Uring) : Type 0 where
  pub eventfd : k.State → Option ℕ × k.State
  pub open_null : k.State → Option ℕ × k.State
  pub close : Option ℕ → k.State → k.State
  pub queue_init_params : (entries : ℕ) → k.State → Bool × k.State
  pub register_eventfd : Option ℕ → k.State → Bool × k.State
  pub queue_exit : k.State → k.State

-- The value at an index of a vector.
abbrev pub at : List ℕ → ℕ → ℕ
at [] i = 0
at (x ∷ xs) zero = x
at (x ∷ xs) (suc i) = at xs i

-- `fd <= 0` after get_null_fd
abbrev pub refused : Option ℕ → Bool
refused none = true
refused (some fd) = fd == 0

module _ {k : Uring} (os : Os k) where
  -- uring_proxy, with m_efd and m_null_fds; `files` holds the rest.
  pub record Proxy : Type 0 where
    pub efd : Option ℕ
    pub null_fds : List ℕ
    pub files : UringProxy k

  -- The constructor, where `slots` is what the array of m_fds holds; none where the program ends.
  unfoldable pub construct : (slots : ℕ → ℕ) → k.State → Option Proxy
  construct slots u =
      let (res, u') = os.eventfd u in
      elim res [
        | none ↦ none
        | some fd ↦ some (record {
          efd = some fd;
          null_fds = [];
          files = record { uring = u'; null_fds = at []; fds = record { slots = slots; que = [] } };
        })
      ]

  -- The loop of `init` over get_null_fd.
  unfoldable pub open_nulls : (rounds : ℕ) → k.State → Option (List ℕ × k.State)
  open_nulls zero u = some ([], u)
  open_nulls (suc n) u =
      let (res, u') = os.open_null u in
      if refused res then none else elim res [
        | none ↦ none
        | some fd ↦ elim (open_nulls n u') [ none ↦ none | some (fds, u'') ↦ some (fd ∷ fds, u'') ]
      ]

  -- The part of `init` under kEnableFixfd.
  unfoldable pub init_nulls : Proxy → Option Proxy
  unfolding open_nulls
  init_nulls p = elim (open_nulls fix_fd_array_size p.files.uring) [
    | none ↦ none
    | some (fds, u) ↦ elim (init_fds k (at fds) (record p.files { uring = u })) [
      | none ↦ none
      | some files ↦ some (record p { null_fds = fds; files = files })
    ]
  ]

  -- The part before it, which sets up the ring and binds the eventfd to it.
  unfoldable pub init_ring : (entries : ℕ) → Proxy → Option Proxy
  init_ring entries p =
      let (made, u) = os.queue_init_params entries p.files.uring in
      let (bound, u') = os.register_eventfd p.efd u in
      if made
      then (if bound then some (record p { files = record p.files { uring = u' } }) else none)
      else none

  -- `uring_proxy::init`
  unfoldable pub init_proxy : (entries : ℕ) → Proxy → Option Proxy
  unfolding init_ring init_nulls
  init_proxy entries p = elim (init_ring entries p) [ none ↦ none | some p' ↦ init_nulls p' ]

  -- The loop of `deinit` over m_null_fds.
  unfoldable pub close_all : List ℕ → k.State → k.State
  close_all [] u = u
  close_all (fd ∷ fds) u = close_all fds (os.close (some fd) u)

  -- `uring_proxy::deinit`
  unfoldable pub deinit_proxy : Proxy → Proxy
  unfolding close_all
  deinit_proxy p =
      let u = os.queue_exit (close_all p.null_fds (os.close p.efd p.files.uring)) in
      record p { efd = none; files = record p.files { uring = u } }

module _ {k : Uring} (os : Os k) (q : TaskQueue) (p : Program) where
  -- An engine with its uring_proxy.
  pub record Machine : Type 0 where
    pub engine : Engine q p
    pub proxy : Proxy os

  -- `engine::init`
  unfoldable pub init_engine : Machine → Option Machine
  unfolding init_proxy
  init_engine m = elim (init_proxy os entry_length m.proxy) [
    | none ↦ none
    | some proxy ↦ some (record {
      engine = record m.engine { num_io_wait_submit = 0; num_io_running = 0; recursive_depth = 0 };
      proxy = proxy;
    })
  ]

  -- `engine::deinit`, where `fresh` is a queue just constructed.
  unfoldable pub deinit_engine : (fresh : q.State) → Machine → Machine
  unfolding deinit_proxy
  deinit_engine fresh m = record {
    engine = record m.engine {
      num_io_wait_submit = 0;
      num_io_running = 0;
      recursive_depth = 0;
      task_queue = fresh;
    };
    proxy = deinit_proxy os m.proxy;
  }

  -- What the thread that `start` makes does, where no scheduler has set a stop callback.
  unfoldable pub thread : (fresh : q.State) → (fuel : ℕ) → List Turn → Machine → Option Machine
  unfolding init_engine run deinit_engine
  thread fresh fuel ts m = elim (init_engine m) [
    | none ↦ none
    | some m' ↦ elim (run q p fuel ts (record { engine = m'.engine; stop_requested = false })) [
      | none ↦ none
      | some c ↦ some (deinit_engine fresh (record m' { engine = c.engine }))
    ]
  ]

-- What the documentation says of the calls: `opens t j` is 1 where descriptor j is open, and else 0,
-- and `ring` tells whether the ring is set up. The ring's own descriptor is left out.
pub record IsOs {k : Uring} (os : Os k) : Type 0 where
  pub opens : k.State → ℕ → ℕ
  pub ring : k.State → Bool
  pub once : (t : k.State) (j : ℕ) → opens t j ≤ 1
  pub eventfd_opens :
      (t t' : k.State) (fd : ℕ)
      → os.eventfd t ≡ (some fd, t')
      → ((j : ℕ) → opens t' j ≡ count j (fd ∷ []) + opens t j) × (ring t' ≡ ring t)
  pub null_opens :
      (t t' : k.State) (fd : ℕ)
      → os.open_null t ≡ (some fd, t')
      → ((j : ℕ) → opens t' j ≡ count j (fd ∷ []) + opens t j) × (ring t' ≡ ring t)
  pub closes :
      (t : k.State) (fd : ℕ)
      → opens t fd ≡ 1
      → ((j : ℕ) → opens t j ≡ count j (fd ∷ []) + opens (os.close (some fd) t) j)
        × (ring (os.close (some fd) t) ≡ ring t)
  pub sets_up :
      (entries : ℕ) (t t' : k.State)
      → os.queue_init_params entries t ≡ (true, t')
      → ((j : ℕ) → opens t' j ≡ opens t j) × (ring t' ≡ true)
  pub binds :
      (efd : Option ℕ) (t t' : k.State)
      → os.register_eventfd efd t ≡ (true, t')
      → ((j : ℕ) → opens t' j ≡ opens t j) × (ring t' ≡ ring t)
  pub binds_open : (t t' : k.State) → os.register_eventfd none t ≢ (true, t')
  pub registers :
      (fds : ℕ → ℕ) (nr : ℕ) (t t' : k.State)
      → k.register_files fds nr t ≡ some t'
      → ((j : ℕ) → opens t' j ≡ opens t j) × (ring t' ≡ ring t)
  pub exits :
      (t : k.State)
      → ((j : ℕ) → opens (os.queue_exit t) j ≡ opens t j) × (ring (os.queue_exit t) ≡ false)
