-- ===== src/Tcp/Safety.antt =====
-- The operations of a connector reach its socket.
use sheepcoro.Base.{ℕ, ◌≡◌, ◌≢◌, refl, none, some, arith, bit_and-same, bit_and-zero}
use sheepcoro.Awaiters.{Ptr}
use sheepcoro.FixedFds.{Uring, IsKernel}
use sheepcoro.FixedFds.Buffer.{Item}
use sheepcoro.FixedFds.System as Fds
use sheepcoro.Io.{tcp_close_awaiter}
use sheepcoro.Tcp.{Connector, read, write}
use sheepcoro.Tcp.System.{file_at, file_of, System, opens, closes, Reach, start, later}
use sheepcoro.Tcp.Invariant.{Right, Inv, opens-Inv, closes-Inv}

module _ {k : Uring} (law : IsKernel k) where
  Reach-Inv : {s : System k} → Reach k s → (item : Ptr → Item) × Inv item s
  Reach-Inv (start null_fds fresh p e) = (
    λ o. none,
    record {
      reach = Fds.start null_fds fresh p e;
      same = λ o. refl;
      right = λ o c at. absurd (ground (arith, at));
    },
  )
  Reach-Inv (later r (opens o fd c p free e)) =
      let (item, inv) = Reach-Inv r in (_, opens-Inv law inv o fd c p free e)
  Reach-Inv (later r (closes o c c' aw p at e)) =
      let (item, inv) = Reach-Inv r in (_, closes-Inv law inv o c c' aw p at e)

  pub Right-file :
      (it : Item) (u : k.State) (c : Connector)
      → k.fixed_file ≢ 0
      → Right k u it c
      → file_at k u c.sockfd c.sqe_flag ≡ c.original_fd
  Right-file none u c f (flag, fd) = ground (arith, flag, fd, bit_and-zero k.fixed_file)
  Right-file (some i) u c f (flag, fd, file) =
      rw (flag, bit_and-same k.fixed_file) (ground (arith, f, fd, file))

  -- With an io_uring that does what is documented, and a flag IOSQE_FIXED_FILE that is not 0: in
  -- every reachable state, whichever connectors have been opened and closed before, the reads and
  -- writes of an open connector go to the socket that it was made for, through a registered file or
  -- not, and so does its close.
  pub reaches_socket :
      {s : System k}
      → k.fixed_file ≢ 0
      → Reach k s
      → (o : Ptr) (c : Connector) → s.conn o ≡ some c
      → (buf len io_flags : ℕ)
      → (file_of k s.uring (read buf len io_flags c) ≡ c.original_fd)
        × (file_of k s.uring (write buf len io_flags c) ≡ c.original_fd)
        × (file_of k s.uring (tcp_close_awaiter c.original_fd) ≡ c.original_fd)
  reaches_socket {s} f r o c at buf len io_flags =
      let (item, inv) = Reach-Inv r in
      let same = Right-file c.fixed_fd s.uring c f (inv.right o c at) in
      (same, same, ground (arith, bit_and-zero k.fixed_file))
