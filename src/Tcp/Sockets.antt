-- ===== src/Tcp/Sockets.antt =====
-- The constructors of tcp_server and tcp_client in src/io/net/tcp/tcp.cpp, with the calls of the
-- system as a parameter.
use sheepcoro.Base.{ℕ, Bool, Option, none, some, if◌then◌else◌}
use sheepcoro.FixedFds.{Uring, UringProxy, get_fixed_fd, assign}
use sheepcoro.FixedFds.Buffer.{Item}
use sheepcoro.Io.{Awaiter, tcp_accept_awaiter, tcp_connect_awaiter}

-- inet_pton returns -1, 0 where the text is no address, or 1 and writes the address.
pub data Pton : Type 0 where
  unsupported : Pton
  not_valid : Pton
  parsed : (addr : ℕ) → Pton

-- `socket` is the descriptor, or none for a negative result; `bind` and `listen` whether they return
-- 0. A text is named by a number.
pub record Calls : Type 0 where
  pub socket : Option ℕ
  pub inet_pton : (text : ℕ) → Pton
  pub bind : (fd addr port : ℕ) → Bool
  pub listen : (fd : ℕ) → Bool

-- INADDR_ANY
abbrev pub inaddr_any : ℕ
inaddr_any = 0

-- s_addr after the call of inet_pton: memset has made it 0 before. none where the program ends.
abbrev pub addr_of : Pton → Option ℕ
addr_of unsupported = none
addr_of not_valid = some 0
addr_of (parsed addr) = some addr

-- The test of `addr` and what follows; `text` is none for nullptr.
abbrev pub address : Calls → (text : Option ℕ) → Option ℕ
address calls none = some inaddr_any
address calls (some text) = addr_of (calls.inet_pton text)

pub record Server : Type 0 where
  pub listenfd : ℕ
  pub addr : ℕ
  pub fixed_fd : Item
  pub sqe_flag : ℕ

-- `accept`
abbrev pub accept : (io_flags : ℕ) → Server → Awaiter
accept io_flags s = tcp_accept_awaiter s.listenfd io_flags s.sqe_flag

pub record Client : Type 0 where
  pub clientfd : ℕ
  pub addr : ℕ

-- `connect`, where m_serveraddr has this address and length.
abbrev pub connect : (serveraddr len : ℕ) → Client → Awaiter
connect serveraddr len c = tcp_connect_awaiter c.clientfd serveraddr len

module _ (k : Uring) (calls : Calls) where
  -- `tcp_server(addr, port)` past the address.
  abbrev pub listens : (fd addr port : ℕ) → Item → UringProxy k → Option (Server × UringProxy k)
  listens fd addr port item p =
      let made : Option (Server × UringProxy k) = elim (assign k item fd 0 p) [
        | none ↦ none
        | some (fd', flag, p') ↦
            some (record { listenfd = fd'; addr = addr; fixed_fd = item; sqe_flag = flag }, p')
      ] in
      if calls.bind fd addr port then (if calls.listen fd then made else none) else none

  -- What the constructors do for an address, or none where the test of the text ends the program.
  abbrev pub server_at : Option ℕ → (port : ℕ) → UringProxy k → Option (Server × UringProxy k)
  server_at addr port p =
      let (item, p') = get_fixed_fd k p in
      elim calls.socket [
        | none ↦ none
        | some fd ↦ elim addr [ none ↦ none | some addr ↦ listens fd addr port item p' ]
      ]

  abbrev pub client_at : Option ℕ → Option Client
  client_at addr = elim calls.socket [
    | none ↦ none
    | some fd ↦ elim addr [ none ↦ none | some addr ↦ some (record { clientfd = fd; addr = addr }) ]
  ]

  -- `tcp_server(addr, port)`, with the constructor of fixed_fds first, and `tcp_client(addr, port)`.
  unfoldable pub tcp_server :
      (text : Option ℕ) (port : ℕ) → UringProxy k → Option (Server × UringProxy k)
  tcp_server text port p = server_at (address calls text) port p

  unfoldable pub tcp_client : (text : Option ℕ) → Option Client
  tcp_client text = client_at (address calls text)
