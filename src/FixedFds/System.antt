-- ===== src/FixedFds/System.antt =====
-- Any number of fixed_fds objects over one engine's registered files: each step is one call of
-- include/coro/io/base_io_type.hpp.
use sheepcoro.Base.{ℕ, ◌≡◌, none, some}
use sheepcoro.Awaiters.{Ptr, update}
use sheepcoro.FixedFds.{Uring, UringProxy, init_fds, get_fixed_fd, assign, give_back}
use sheepcoro.FixedFds.Buffer.{Item}

module _ (k : Uring) where
  -- `item` is none also for an object that does not exist.
  pub record System : Type 0 where
    pub proxy : UringProxy k
    pub open proxy use *
    pub item : Ptr → Item

  pub data Step (s : System) : System → Type 0 where
    construct :
        (o : Ptr) (it : Item) (p : UringProxy k)
        → s.item o ≡ none
        → get_fixed_fd k s.proxy ≡ (it, p)
        → Step s (record { proxy = p; item = update s.item o it })
    assigns :
        (o : Ptr) (fd flag fd' flag' : ℕ) (p : UringProxy k)
        → assign k (s.item o) fd flag s.proxy ≡ some (fd', flag', p)
        → Step s (record s { proxy = p })
    returns :
        (o : Ptr) (it : Item) (p : UringProxy k)
        → give_back k (s.item o) s.proxy ≡ some (it, p)
        → Step s (record { proxy = p; item = update s.item o it })

  pub data Reach : System → Type 0 where
    start :
        (null_fds : ℕ → ℕ) (fresh p : UringProxy k)
        → init_fds k null_fds fresh ≡ some p
        → Reach (record { proxy = p; item = λ _. none })
    later : {s t : System} → Reach s → Step s t → Reach t
