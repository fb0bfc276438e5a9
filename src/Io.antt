-- ===== src/Io.antt =====
-- include/coro/io/io_info.hpp, include/coro/io/base_awaiter.hpp, include/coro/io/io_awaiter.hpp,
-- src/io/io_awaiter.cpp and the awaiter of include/coro/timer.hpp: the awaiters of operations on one
-- engine's io_uring.
pub mod Ring
pub mod System
pub mod Invariant
pub mod Safety
mod Tests
use sheepcoro.Base.{ℕ, ◌+◌, ◌-◌, ◌^◌, Bool, true, false, ◌==◌, if◌then◌else◌}
use sheepcoro.Awaiters.{Ptr, null}

abbrev pub Handle : Type 0
Handle = ℕ

-- io_type
pub data IoType : Type 0 where
  nop tcp_accept tcp_connect tcp_close tcp_read tcp_write stdin timer none_type : IoType

-- The callbacks of the awaiters' classes.
pub data Callback : Type 0 where
  plain_cb : Callback  -- of noop, stdin and tcp but connect
  connect_cb : Callback
  timer_cb : Callback

-- `result` is the bit pattern of an int32_t; `word` is the field `data`.
pub record IoInfo : Type 0 where
  pub handle : Handle
  pub result : ℕ
  pub type : IoType
  pub word : ℕ
  pub cb : Callback

-- What io_uring is asked for, by the prep function.
pub data Request : Type 0 where
  prep_nop : Request
  prep_read : (fd buf nbytes offset : ℕ) → Request
  prep_accept : (fd flags : ℕ) → Request
  prep_recv : (fd buf len flags : ℕ) → Request
  prep_send : (fd buf len flags : ℕ) → Request
  prep_close : (fd : ℕ) → Request
  prep_connect : (fd addr addrlen : ℕ) → Request
  prep_timeout : (sec nsec count flags : ℕ) → Request

-- The constructors of the awaiters' classes, with their arguments.
pub data Awaiter : Type 0 where
  noop_awaiter : Awaiter
  stdin_awaiter : (buf len io_flag sqe_flag : ℕ) → Awaiter
  tcp_accept_awaiter : (listenfd io_flag sqe_flag : ℕ) → Awaiter
  tcp_read_awaiter : (sockfd buf len io_flag sqe_flag : ℕ) → Awaiter
  tcp_write_awaiter : (sockfd buf len io_flag sqe_flag : ℕ) → Awaiter
  tcp_close_awaiter : (sockfd : ℕ) → Awaiter
  tcp_connect_awaiter : (sockfd addr addrlen : ℕ) → Awaiter
  timer_awaiter : (sec nsec count flags : ℕ) → Awaiter

abbrev pub type_of : Awaiter → IoType
type_of noop_awaiter = nop
type_of (stdin_awaiter _ _ _ _) = stdin
type_of (tcp_accept_awaiter _ _ _) = tcp_accept
type_of (tcp_read_awaiter _ _ _ _ _) = tcp_read
type_of (tcp_write_awaiter _ _ _ _ _) = tcp_write
type_of (tcp_close_awaiter _) = tcp_close
type_of (tcp_connect_awaiter _ _ _) = tcp_connect
type_of (timer_awaiter _ _ _ _) = timer

abbrev pub callback_of : Awaiter → Callback
callback_of (tcp_connect_awaiter _ _ _) = connect_cb
callback_of (timer_awaiter _ _ _ _) = timer_cb
callback_of _ = plain_cb

-- STDIN_FILENO is 0.
abbrev pub request_of : Awaiter → Request
request_of noop_awaiter = prep_nop
request_of (stdin_awaiter buf len io_flag _) = prep_read 0 buf len io_flag
request_of (tcp_accept_awaiter listenfd io_flag _) = prep_accept listenfd io_flag
request_of (tcp_read_awaiter sockfd buf len io_flag _) = prep_recv sockfd buf len io_flag
request_of (tcp_write_awaiter sockfd buf len io_flag _) = prep_send sockfd buf len io_flag
request_of (tcp_close_awaiter sockfd) = prep_close sockfd
request_of (tcp_connect_awaiter sockfd addr addrlen) = prep_connect sockfd addr addrlen
request_of (timer_awaiter sec nsec count flags) = prep_timeout sec nsec count flags

-- io_uring_sqe_set_flags; the other classes do not set the flags.
abbrev pub flags_of : Awaiter → ℕ
flags_of (stdin_awaiter _ _ _ sqe_flag) = sqe_flag
flags_of (tcp_accept_awaiter _ _ sqe_flag) = sqe_flag
flags_of (tcp_read_awaiter _ _ _ _ sqe_flag) = sqe_flag
flags_of (tcp_write_awaiter _ _ _ _ sqe_flag) = sqe_flag
flags_of _ = 0

-- m_info after the constructor: tcp_connect alone writes the field `data`.
abbrev pub word_of : Awaiter → ℕ → ℕ
word_of (tcp_connect_awaiter sockfd _ _) old = sockfd
word_of _ old = old

abbrev pub info_of : Awaiter → IoInfo → IoInfo
info_of a old = record old { type = type_of a; word = word_of a old.word; cb = callback_of a }

-- -ETIME
abbrev pub etime : ℕ
etime = 2 ^ 32 - 62

-- What a callback writes to `result`.
abbrev pub result_of : Callback → (word res : ℕ) → ℕ
result_of plain_cb word res = res
result_of connect_cb word res = if res == 0 then word else res
result_of timer_cb word res = if res == etime then 0 else res

-- `await_suspend` and `await_resume`
abbrev pub await_suspend : Handle → IoInfo → IoInfo
await_suspend h i = record i { handle = h }

abbrev pub await_resume : IoInfo → ℕ
await_resume i = i.result
