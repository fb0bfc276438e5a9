-- ===== src/Tcp/Server.antt =====
-- When the constructor of tcp_server in src/io/net/tcp/tcp.cpp makes a server, and of what.
use Prim.Native.Nat.{bit_or}
use sheepcoro.Base.{ℕ, ◌+◌, ◌≡◌, ◌≢◌, refl, sym, ap, true, Option, none, some, ◌⊎◌, inl, inr}
use sheepcoro.FixedFds.{
  Uring, IsKernel, UringProxy, get_fixed_fd, assign, update_register_fixed_fds,
}
use sheepcoro.FixedFds.Buffer.{Item, set_item}
use sheepcoro.Tcp.{Connector}
use sheepcoro.Tcp.System.{file_at, file_of}
use sheepcoro.Tcp.Invariant.{made-Right}
use sheepcoro.Tcp.Safety.{Right-file}
use sheepcoro.Tcp.Sockets.{
  not_valid, parsed, inaddr_any, Calls, address, Server as TcpServer, accept, server_at, listens,
  tcp_server,
}

module _ {k : Uring} (law : IsKernel k) (calls : Calls) where
  assigned_lem :
      (fd : ℕ) (item : Item) (p p' : UringProxy k) (s : TcpServer)
      → k.fixed_file ≢ 0
      → assign k item fd 0 p ≡ some (s.listenfd, s.sqe_flag, p')
      → file_at k p'.uring s.listenfd s.sqe_flag ≡ fd
  assigned_lem fd item p p' s f e =
      let c : Connector = record {
        sockfd = s.listenfd;
        original_fd = fd;
        fixed_fd = item;
        sqe_flag = s.sqe_flag;
      } in
      Right-file law item p'.uring c f (made-Right law fd item c p p' refl e).0

  -- The address that a server is to have: every address for nullptr, what the text says, and every
  -- address also for a text that is no address.
  abbrev Asked : Option ℕ → ℕ → Type 0
  Asked none addr = addr ≡ inaddr_any
  Asked (some text) addr =
      (calls.inet_pton text ≡ parsed addr)
      ⊎ ((calls.inet_pton text ≡ not_valid) × (addr ≡ inaddr_any))

  asked_lem : (text : Option ℕ) (addr : ℕ) → Asked text addr → address calls text ≡ some addr
  asked_lem none addr h = ap some (sym h)
  asked_lem (some text) addr (inl y) = rw y refl
  asked_lem (some text) addr (inr (y, any)) = rw y (ap some (sym any))

  -- `assign` succeeds where the kernel takes the update.
  assign_succeeds :
      (item : Item) (fd : ℕ) (p : UringProxy k)
      → ((idx : ℕ)
          → item ≡ some idx
          → (fds : ℕ → ℕ) (u : k.State)
          → (u' : k.State) × (k.update_files idx fds 1 u ≡ (some 1, u')))
      → (r : ℕ × ℕ × UringProxy k) × (assign k item fd 0 p ≡ some r)
  unfolding assign update_register_fixed_fds
  assign_succeeds none fd p takes = (_, refl)
  assign_succeeds (some idx) fd p takes =
      let (u, e) = takes idx refl (λ j. (set_item idx fd p.fds).slots (idx + j)) p.uring in
      (
        (idx, bit_or 0 k.fixed_file, record p { uring = u; fds = set_item idx fd p.fds }),
        simp (assign, update_register_fixed_fds, e),
      )

  -- The constructor, where its calls succeed.
  made_lem :
      (text : Option ℕ) (addr port fd : ℕ) (p : UringProxy k) (fd' flag : ℕ) (p' : UringProxy k)
      → address calls text ≡ some addr
      → calls.socket ≡ some fd
      → calls.bind fd addr port ≡ true
      → calls.listen fd ≡ true
      → assign k (get_fixed_fd k p).0 fd 0 (get_fixed_fd k p).1 ≡ some (fd', flag, p')
      → tcp_server k calls text port p
        ≡ some (
          record { listenfd = fd'; addr = addr; fixed_fd = (get_fixed_fd k p).0; sqe_flag = flag },
          p',
        )
  unfolding tcp_server
  made_lem text addr port fd p fd' flag p' asked opened bound heard e =
      simp (opened, asked, server_at, listens, bound, heard, e)

  -- On an io_uring that does what is documented and takes the update of the registered file that
  -- the server borrows, if it gets one, and with a flag IOSQE_FIXED_FILE that is not 0: where
  -- socket, bind and listen succeed, the constructor makes a server, whose address is every address
  -- for nullptr, what the text says, and every address also for a text that is no address; and its
  -- accepts go to the socket that was bound and listened on, through the registered file or not.
  pub server_lem :
      k.fixed_file ≢ 0
      → (text : Option ℕ) (addr port io_flags fd : ℕ) (p : UringProxy k)
      → ((idx : ℕ)
          → (get_fixed_fd k p).0 ≡ some idx
          → (fds : ℕ → ℕ) (u : k.State)
          → (u' : k.State) × (k.update_files idx fds 1 u ≡ (some 1, u')))
      → Asked text addr
      → calls.socket ≡ some fd
      → calls.bind fd addr port ≡ true
      → calls.listen fd ≡ true
      → (s : TcpServer) × (p' : UringProxy k) × (tcp_server k calls text port p ≡ some (s, p'))
        × (s.addr ≡ addr)
        × (file_of k p'.uring (accept io_flags s) ≡ fd)
  server_lem f text addr port io_flags fd p takes asked opened bound heard =
      let item = (get_fixed_fd k p).0 in
      let q = (get_fixed_fd k p).1 in
      let ((fd', flag, p'), e) = assign_succeeds item fd q takes in
      let s : TcpServer = record {
        listenfd = fd';
        addr = addr;
        fixed_fd = item;
        sqe_flag = flag;
      } in
      (
        s,
        p',
        made_lem text addr port fd p fd' flag p' (asked_lem text addr asked) opened bound heard e,
        refl,
        assigned_lem fd item q p' s f e,
      )
