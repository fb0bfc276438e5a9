-- ===== src/Tcp.antt =====
-- include/coro/io/net/tcp/tcp.hpp and src/io/net/tcp/tcp.cpp: the sockets of connectors, servers and
-- clients, over the registered files of one engine.
pub mod System
pub mod Invariant
pub mod Safety
pub mod Sockets
pub mod Server
mod Tests
use sheepcoro.Base.{ℕ, Bool, true, false, Option, none, some}
use sheepcoro.FixedFds.{Uring, UringProxy, get_fixed_fd, assign, give_back}
use sheepcoro.FixedFds.Buffer.{Item}
use sheepcoro.Io.{
  Awaiter, tcp_read_awaiter, tcp_write_awaiter, tcp_close_awaiter, tcp_accept_awaiter,
}

pub record Connector : Type 0 where
  pub sockfd : ℕ
  pub original_fd : ℕ
  pub fixed_fd : Item
  pub sqe_flag : ℕ

-- `read` and `write`
abbrev pub read : (buf len io_flags : ℕ) → Connector → Awaiter
read buf len io_flags c = tcp_read_awaiter c.sockfd buf len io_flags c.sqe_flag

abbrev pub write : (buf len io_flags : ℕ) → Connector → Awaiter
write buf len io_flags c = tcp_write_awaiter c.sockfd buf len io_flags c.sqe_flag

module _ (k : Uring) where
  -- `tcp_connector(int sockfd)`, with the constructor of fixed_fds.
  unfoldable pub tcp_connector : (sockfd : ℕ) → UringProxy k → Option (Connector × UringProxy k)
  unfolding get_fixed_fd assign
  tcp_connector sockfd p =
      let (item, p') = get_fixed_fd k p in
      elim (assign k item sockfd 0 p') [
        | none ↦ none
        | some (fd, flag, p'') ↦
            some
              (record { sockfd = fd; original_fd = sockfd; fixed_fd = item; sqe_flag = flag }, p'')
      ]

  -- `close`
  unfoldable pub close : Connector → UringProxy k → Option (Awaiter × Connector × UringProxy k)
  unfolding give_back
  close c p = elim (give_back k c.fixed_fd p) [
    | none ↦ none
    | some (item, p') ↦ some (tcp_close_awaiter c.original_fd, record c { fixed_fd = item }, p')
  ]
