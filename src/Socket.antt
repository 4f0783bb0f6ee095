-- ===== src/Socket.antt =====
-- include/Socket.h and src/Socket.cc: the calls of the system that a socket makes. What the system
-- answers is an argument; `LOG_FATAL` ends the program, and is `none`. A failed `shutdown` or
-- `setsockopt` is no more than a line in the log, or not looked at.
use echo_server.Prelude.{ℕ, Bool, List, [], ◌∷◌, Option, none, some, if◌then◌else◌}
use echo_server.InetAddress.{InetAddress, set_sock_addr}

-- `TCP_NODELAY`, `SO_REUSEADDR`, `SO_REUSEPORT` and `SO_KEEPALIVE`.
pub data SocketOption : Type 0 where
  tcp_no_delay reuse_addr reuse_port keep_alive : SocketOption

pub data Call : Type 0 where
  set_option : SocketOption → Bool → ℕ → Call
  bound : ℕ → InetAddress → Call
  listened : ℕ → ℕ → Call
  shut_write : ℕ → Call
  closed : ℕ → Call
  handed : ℕ → InetAddress → Call

abbrev pub backlog : ℕ
backlog = 1024

-- `ok` says whether the system's `bind` or `listen` returns 0.
unfoldable pub bind_address : Bool → InetAddress → ℕ → Option (List Call)
bind_address ok addr fd = if ok then some (bound fd addr ∷ []) else none

unfoldable pub listen : Bool → ℕ → Option (List Call)
listen ok fd = if ok then some (listened fd backlog ∷ []) else none

-- What `accept4` gives: a descriptor and the peer's address, or an error. The peer's address is
-- stored only with a descriptor.
pub data Accepted : Type 0 where
  connection : ℕ → InetAddress → Accepted
  failed : ℕ → Accepted

unfoldable pub accept : Accepted → InetAddress → Option ℕ × InetAddress
accept (connection fd peer) old = (some fd, set_sock_addr peer old)
accept (failed errno) old = (none, old)

unfoldable pub shutdown_write : ℕ → List Call
shutdown_write fd = shut_write fd ∷ []

unfoldable pub set : SocketOption → Bool → ℕ → List Call
set o on fd = set_option o on fd ∷ []

-- The destructor.
unfoldable pub destroy : ℕ → List Call
destroy fd = closed fd ∷ []
