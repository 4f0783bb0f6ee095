-- ===== src/Acceptor.antt =====
-- include/Acceptor.h and src/Acceptor.cc: the listening socket. Its channel stands in the poller
-- at an address that is an argument; the calls of the system are those of `Socket`.
pub mod Watched
pub mod Hand
mod Examples
use echo_server.Prelude.{
  ℕ, Bool, true, false, List, [], ◌∷◌, ◌++◌, Option, none, some, if◌then◌else◌,
}
use echo_server.Channel.{enable_reading, disable_all}
use echo_server.InetAddress.{InetAddress}
use echo_server.Poller.{Epoll, Poller, apply_change, remove_channel}
use echo_server.Socket
use echo_server.Socket.{Call, closed, handed, reuse_addr, reuse_port, Accepted}

pub record Acceptor : Type 0 where
  pub fd : ℕ
  pub listening : Bool
  pub has_callback : Bool

-- `createNonblocking`: no socket is the end of the program.
unfoldable pub create_nonblocking : Option ℕ → Option ℕ
create_nonblocking reply = reply

-- The constructor. Its last parameter, whether the port may be shared, is not read.
unfoldable pub init : Option ℕ → Bool → InetAddress → Bool → Option (Acceptor × List Call)
unfolding create_nonblocking
init reply bind_ok listen_addr shared = elim (create_nonblocking reply) [
  | none ↦ none
  | some fd ↦ elim (Socket.bind_address bind_ok listen_addr fd) [
    | none ↦ none
    | some calls ↦ some (
      record { fd = fd; listening = false; has_callback = false },
      Socket.set reuse_addr true fd ++ (Socket.set reuse_port true fd ++ calls),
    )
  ]
]

unfoldable pub set_new_connection_callback : Acceptor → Acceptor
set_new_connection_callback a = record a { has_callback = true }

-- `handleRead`: the address is that of an empty `InetAddress`, unless `accept` stores another.
unfoldable pub handle_read : Accepted → InetAddress → Acceptor → List Call
unfolding Socket.accept
handle_read reply empty a =
    let (fd, peer) = Socket.accept reply empty in
    elim fd [
      | none ↦ []
      | some connfd ↦ if a.has_callback then handed connfd peer ∷ [] else closed connfd ∷ []
    ]

module _ (os : Epoll) where
  -- `listen()`: the system's `listen` comes before the channel's `enableReading`.
  unfoldable pub listen :
      Bool → ℕ → Acceptor → Poller os → Option (Acceptor × List Call × Poller os)
  listen ok p a r = elim (Socket.listen ok a.fd) [
    | none ↦ none
    | some calls ↦ elim (apply_change os enable_reading p r) [
      | none ↦ none
      | some s ↦ some (record a { listening = true }, calls, s)
    ]
  ]

  -- The destructor: the channel first, then the socket.
  unfoldable pub destroy : ℕ → Acceptor → Poller os → Option (List Call × Poller os)
  destroy p a r = elim (apply_change os disable_all p r) [
    | none ↦ none
    | some s ↦ elim (remove_channel os p s) [ none ↦ none | some t ↦ some (Socket.destroy a.fd, t) ]
  ]
