-- ===== src/Tcp/Tests.antt =====
-- Runs and witnesses for Tcp.antt.
use sheepcoro.Base.{
  inl, ℕ, ◌+◌, ◌-◌, ◌≡◌, refl, true, some, [], ◌&&◌, arith, ltb, leb, if◌then◌else◌,
}
use sheepcoro.FixedFds.{Uring, IsKernel, UringProxy, init_fds, get_fixed_fd, assign}
use sheepcoro.Io.{tcp_close_awaiter}
use sheepcoro.Tcp.{Connector, tcp_connector, read, write, close}
use sheepcoro.Tcp.System.{file_of, System, Reach, start, later, opens, closes}
use sheepcoro.Tcp.Safety.{reaches_socket}
use sheepcoro.Tcp.Sockets.{
  not_valid, parsed, Calls, inaddr_any, Server as TcpServer, accept, tcp_server,
}
use sheepcoro.Tcp.Server.{server_lem}

-- An io_uring that takes every update.
abbrev table_kernel : Uring
table_kernel = record {
  State = ℕ → ℕ;
  table = λ u. u;
  register_files = λ fds nr u. some fds;
  update_files =
      λ off fds nr u. (some nr, λ j. if leb off j && ltb j (off + nr) then fds (j - off) else u j);
  fixed_file = 1;
}

table_kernel-IsKernel : IsKernel table_kernel
table_kernel-IsKernel = record {
  registered = λ fds nr u u' e j h. ground (arith, e);
  updated = λ off fds nr n u u' e j. ground (arith, e);
}

abbrev fresh : UringProxy table_kernel
fresh = record { uring = λ _. 0; null_fds = λ _. 0; fds = record { slots = λ _. 0; que = [] } }

-- The socket 40 is opened and closed, and then the socket 41 opened.
abbrev Opened : Type 0
Opened =
    (s : System table_kernel) × Reach table_kernel s
    × (c : Connector) × (s.conn 5 ≡ some c)
    × (c.sockfd ≡ 1)

opened : Opened
unfolding init_fds tcp_connector close
opened = (
  _,
  later
      (later (later (start (λ i. 100 + i) fresh _ refl) (opens 4 40 _ _ refl refl))
        (closes 4 _ _ _ _ refl refl))
      (opens 5 41 _ _ refl refl),
  _,
  refl,
  refl,
)

reaches_socket_example :
    (file_of table_kernel opened.0.uring (read 9 10 0 opened.2) ≡ opened.2.original_fd)
    × (file_of table_kernel opened.0.uring (write 9 10 0 opened.2) ≡ opened.2.original_fd)
    × (file_of table_kernel opened.0.uring (tcp_close_awaiter opened.2.original_fd)
        ≡ opened.2.original_fd)
reaches_socket_example =
    reaches_socket table_kernel-IsKernel (λ e. ground (arith, e)) opened.1 5 opened.2 opened.3 9 10
      0

-- The text 2 is no address.
abbrev calls : Calls
calls = record {
  socket = some 40;
  inet_pton = λ text. if ltb text 2 then parsed 7 else not_valid;
  bind = λ fd addr port. true;
  listen = λ fd. true;
}

-- A server for a text that is no address listens on address 0, which is every address.
abbrev Made : Type 0
Made =
    (s : TcpServer) × (p : UringProxy table_kernel) × (tcp_server table_kernel calls (some 2) 80
        opened.0.proxy
      ≡ some (s, p))
    × (s.addr ≡ inaddr_any)
    × (s.sqe_flag ≡ 1)

made : Made
unfolding tcp_server get_fixed_fd assign opened init_fds tcp_connector close
made = (_, _, refl, refl, refl)

-- A server for a text that is an address.
server_lem_example :
    (s : TcpServer) × (p' : UringProxy table_kernel) × (tcp_server table_kernel calls
        (some 1)
        80
        opened.0.proxy
      ≡ some (s, p'))
    × (s.addr ≡ 7)
    × (file_of table_kernel p'.uring (accept 0 s) ≡ 40)
server_lem_example =
    server_lem table_kernel-IsKernel calls (λ e. ground (arith, e)) (some 1) 7 80 0 40
      opened.0.proxy (λ idx e fds u. (_, refl)) (inl refl) refl refl refl
