-- ===== src/Tcp/System.antt =====
-- Any number of connectors that are opened and closed on one engine, and the file that an operation
-- reaches.
use Prim.Native.Nat.{bit_and}
use sheepcoro.Base.{ℕ, ◌≡◌, Option, none, some, ◌==◌, if◌then◌else◌}
use sheepcoro.Awaiters.{Ptr, update}
use sheepcoro.FixedFds.{Uring, UringProxy, init_fds}
use sheepcoro.Io.{
  Awaiter, Request, prep_nop, prep_read, prep_accept, prep_recv, prep_send, prep_close,
  prep_connect, prep_timeout, request_of, flags_of,
}
use sheepcoro.Tcp.{Connector, tcp_connector, close}

-- The descriptor of a request; those that have none say 0.
abbrev pub fd_of : Request → ℕ
fd_of prep_nop = 0
fd_of (prep_read fd _ _ _) = fd
fd_of (prep_accept fd _) = fd
fd_of (prep_recv fd _ _ _) = fd
fd_of (prep_send fd _ _ _) = fd
fd_of (prep_close fd) = fd
fd_of (prep_connect fd _ _) = fd
fd_of (prep_timeout _ _ _ _) = 0

module _ (k : Uring) where
  -- With IOSQE_FIXED_FILE the descriptor is an index of the registered files.
  abbrev pub file_at : k.State → (fd flags : ℕ) → ℕ
  file_at u fd flags = if bit_and flags k.fixed_file == 0 then fd else k.table u fd

  abbrev pub file_of : k.State → Awaiter → ℕ
  file_of u aw = file_at u (fd_of (request_of aw)) (flags_of aw)

  -- `conn` is none for a connector that is closed, or was never made.
  pub record System : Type 0 where
    pub proxy : UringProxy k
    pub open proxy use *
    pub conn : Ptr → Option Connector

  pub data Step (s : System) : System → Type 0 where
    opens :
        (o : Ptr) (fd : ℕ) (c : Connector) (p : UringProxy k)
        → s.conn o ≡ none
        → tcp_connector k fd s.proxy ≡ some (c, p)
        → Step s (record { proxy = p; conn = update s.conn o (some c) })
    closes :
        (o : Ptr) (c c' : Connector) (aw : Awaiter) (p : UringProxy k)
        → s.conn o ≡ some c
        → close k c s.proxy ≡ some (aw, c', p)
        → Step s (record { proxy = p; conn = update s.conn o none })

  pub data Reach : System → Type 0 where
    start :
        (null_fds : ℕ → ℕ) (fresh p : UringProxy k)
        → init_fds k null_fds fresh ≡ some p
        → Reach (record { proxy = p; conn = λ _. none })
    later : {s t : System} → Reach s → Step s t → Reach t
