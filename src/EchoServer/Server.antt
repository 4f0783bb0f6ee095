-- ===== src/EchoServer/Server.antt =====
-- src/main.cc: the server that `main` makes and starts. `memory` is what stands where the pool's
-- `baseLoop_` comes to lie, `base` is the address of `baseLoop`, and `spawn` gives the address of
-- the loop that each thread makes.
mod Accepting
mod Serving
mod Examples
use echo_server.Prelude.{ℕ, Bool, true, false, List, [], ◌∷◌, ◌++◌, Option, none, some}
use echo_server.Acceptor
use echo_server.Acceptor.{Acceptor}
use echo_server.EventLoopThreadPool
use echo_server.InetAddress.{Net, InetAddress, from_parts, to_ip_port}
use echo_server.Socket
use echo_server.Socket.{Accepted, handed}
use echo_server.TcpConnection.{State, connected}
use echo_server.TcpServer
use echo_server.TcpServer.{TcpServer, Call, new_connection}

-- "127.0.0.1", the default of the constructor of `InetAddress`.
abbrev pub loopback : List ℕ
loopback = b'1' ∷ b'2' ∷ b'7' ∷ b'.' ∷ b'0' ∷ b'.' ∷ b'0' ∷ b'.' ∷ b'1' ∷ []

-- "EchoServer"
abbrev pub server_name : List ℕ
server_name = b'E' ∷ b'c' ∷ b'h' ∷ b'o' ∷ b'S' ∷ b'e' ∷ b'r' ∷ b'v' ∷ b'e' ∷ b'r' ∷ []

module _ (net : Net) where
  -- The constructor: the `TcpServer`, with three threads.
  unfoldable pub init : ℕ → ℕ → InetAddress → List ℕ → TcpServer
  init memory base addr name =
      TcpServer.set_thread_num 3
        (TcpServer.init (to_ip_port net addr) name (EventLoopThreadPool.init memory base))

  -- No callback is set for a new thread.
  unfoldable pub start : (ℕ → ℕ) → TcpServer → TcpServer × List Call
  start spawn s = TcpServer.start spawn false s

  -- What `main` has made when it enters `baseLoop.loop()`.
  unfoldable pub main_server : ℕ → ℕ → (ℕ → ℕ) → TcpServer × List Call
  unfolding init start
  main_server memory base spawn =
      start spawn (init memory base (from_parts net 8080 loopback) server_name)

  -- The server's acceptor, with the calls that its constructor makes of the socket. `reply` is what
  -- `socket` answers, and `bind_ok` whether `bind` succeeds.
  unfoldable pub main_acceptor : Option ℕ → Bool → Option (Acceptor × List Socket.Call)
  main_acceptor reply bind_ok =
      elim (Acceptor.init reply bind_ok (from_parts net 8080 loopback) true) [
        | none ↦ none
        | some (a, calls) ↦ some (Acceptor.set_new_connection_callback a, calls)
      ]

  -- What `onConnection` writes to the log: "Connection UP :" or "Connection DOWN :", and the peer.
  unfoldable pub on_connection : State → InetAddress → List ℕ
  on_connection connected peer =
      b'C'
      ∷ b'o'
      ∷ b'n'
      ∷ b'n'
      ∷ b'e'
      ∷ b'c'
      ∷ b't'
      ∷ b'i'
      ∷ b'o'
      ∷ b'n'
      ∷ b' '
      ∷ b'U'
      ∷ b'P'
      ∷ b' '
      ∷ b':'
      ∷ to_ip_port net peer
  on_connection _ peer =
      b'C'
      ∷ b'o'
      ∷ b'n'
      ∷ b'n'
      ∷ b'e'
      ∷ b'c'
      ∷ b't'
      ∷ b'i'
      ∷ b'o'
      ∷ b'n'
      ∷ b' '
      ∷ b'D'
      ∷ b'O'
      ∷ b'W'
      ∷ b'N'
      ∷ b' '
      ∷ b':'
      ∷ to_ip_port net peer

-- Connections that the acceptor hands to `newConnection` one after another.
unfoldable pub accept_all : List ℕ → TcpServer → Option (TcpServer × List Call)
accept_all [] s = some (s, [])
accept_all (c ∷ cs) s = elim (new_connection c s) [
  | none ↦ none
  | some x ↦ elim (accept_all cs x.0) [ none ↦ none | some y ↦ some (y.0, x.1 ++ y.1) ]
]

-- The server's part in the acceptor's calls: a descriptor that is handed over becomes a connection.
-- `make` gives the address of the connection that is made for a descriptor and a peer.
unfoldable pub take_handed :
    (ℕ → InetAddress → ℕ) → List Socket.Call → TcpServer → Option (TcpServer × List Call)
take_handed make [] s = some (s, [])
take_handed make (handed fd peer ∷ calls) s = elim (new_connection (make fd peer) s) [
  | none ↦ none
  | some x ↦ elim (take_handed make calls x.0) [ none ↦ none | some y ↦ some (y.0, x.1 ++ y.1) ]
]
take_handed make (_ ∷ calls) s = take_handed make calls s

-- What the base loop does about a row of answers of `accept4`.
unfoldable pub serve :
    (ℕ → InetAddress → ℕ)
    → List Accepted
    → InetAddress
    → Acceptor
    → TcpServer
    → Option (TcpServer × List Call)
unfolding take_handed Acceptor.handle_read
serve make [] empty a s = some (s, [])
serve make (r ∷ rs) empty a s = elim (take_handed make (Acceptor.handle_read r empty a) s) [
  | none ↦ none
  | some x ↦ elim (serve make rs empty a x.0) [ none ↦ none | some y ↦ some (y.0, x.1 ++ y.1) ]
]
