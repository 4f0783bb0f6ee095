-- ===== src/TcpServer.antt =====
-- include/TcpServer.h and src/TcpServer.cc: the table of connections and their names. A connection
-- is a number, the shared pointer to it; its own state is in `TcpConnection`. The calls that the
-- server makes of loops are returned. `int` values do not wrap below 2^31 connections.
pub mod Names
pub mod Table
pub mod Callbacks
pub mod Examples
use echo_server.Prelude.{
  ℕ, ◌+◌, Bool, true, false, ◌&&◌, List, [], ◌∷◌, ◌++◌, Option, none, some, if◌then◌else◌, ◌==◌,
  take,
}
use echo_server.Decimal.{decimal}
use echo_server.EventLoopThreadPool
use echo_server.EventLoopThreadPool.{EventLoopThreadPool, get_next_loop}

abbrev pub Text : Type 0
Text = List ℕ

-- `std::string`'s `==`.
pub text_eq : Text → Text → Bool
text_eq [] [] = true
text_eq [] (y ∷ ys) = false
text_eq (x ∷ xs) [] = false
text_eq (x ∷ xs) (y ∷ ys) = x == y && text_eq xs ys

-- `connections_`, with the connection and its loop.
abbrev pub Connections : Type 0
Connections = List (Text × ℕ)

pub find : Text → Connections → Option ℕ
unfolding text_eq
find k [] = none
find k ((j, c) ∷ m) = if text_eq j k then some c else find k m

pub insert : Text → ℕ → Connections → Connections
unfolding text_eq
insert k c [] = (k, c) ∷ []
insert k c ((j, d) ∷ m) = if text_eq j k then (k, c) ∷ m else (j, d) ∷ insert k c m

pub erase : Text → Connections → Connections
unfolding text_eq
erase k [] = []
erase k ((j, d) ∷ m) = if text_eq j k then erase k m else (j, d) ∷ erase k m

-- What the server has a loop do: `connectEstablished` and `connectDestroyed` of a connection, on
-- the connection's loop; `removeConnectionInLoop` of a connection and `Acceptor::listen`, on its
-- own.
pub data Call : Type 0 where
  run_established : ℕ → ℕ → Call
  run_removal : ℕ → Call
  queue_destroyed : ℕ → ℕ → Call
  run_destroyed : ℕ → ℕ → Call
  run_listen : Call

pub record TcpServer : Type 0 where
  pub ip_port : Text
  pub name : Text
  pub pool : EventLoopThreadPool
  pub started : ℕ
  pub next_conn_id : ℕ
  pub connections : Connections

-- `CheckLoopNotNull`: no loop is the end of the program.
unfoldable pub check_loop_not_null : Option ℕ → Option ℕ
check_loop_not_null loop = loop

-- The constructor, over the pool that it makes.
unfoldable pub init : Text → Text → EventLoopThreadPool → TcpServer
init ip_port name pool = record {
  ip_port = ip_port;
  name = name;
  pool = pool;
  started = 0;
  next_conn_id = 1;
  connections = [];
}

unfoldable pub set_thread_num : ℕ → TcpServer → TcpServer
set_thread_num n s = record s { pool = EventLoopThreadPool.set_thread_num n s.pool }

-- Only the first call starts anything.
unfoldable pub start : (ℕ → ℕ) → Bool → TcpServer → TcpServer × List Call
start spawn has_callback s =
    let t = record s { started = s.started + 1 } in
    if s.started == 0
    then (
      record t { pool = (EventLoopThreadPool.start spawn has_callback s.pool).0 },
      run_listen ∷ [],
    )
    else (t, [])

-- `snprintf(buf, 64, "-%s#%d", …)`: at most 63 characters fit.
unfoldable pub suffix : Text → ℕ → Text
suffix ip_port id = take 63 (b'-' ∷ ip_port ++ b'#' ∷ decimal id)

abbrev pub conn_name : TcpServer → Text
conn_name s = s.name ++ suffix s.ip_port s.next_conn_id

-- The new connection is `conn`. Without a loop, which is a read out of range in the pool, nothing
-- is said of what happens.
unfoldable pub new_connection : ℕ → TcpServer → Option (TcpServer × List Call)
unfolding insert
new_connection conn s =
    let (loop, pool) = get_next_loop s.pool in
    elim loop [
      | none ↦ none
      | some l ↦ some (
        record s {
          pool = pool;
          next_conn_id = s.next_conn_id + 1;
          connections = insert (conn_name s) conn s.connections;
        },
        run_established l conn ∷ [],
      )
    ]

-- The connection's close callback, which runs in the connection's loop.
unfoldable pub remove_connection : ℕ → List Call
remove_connection conn = run_removal conn ∷ []

-- `conn_loop` and `conn_label` are the connection's own `getLoop()` and `name()`.
unfoldable pub remove_connection_in_loop : ℕ → ℕ → Text → TcpServer → TcpServer × List Call
unfolding erase
remove_connection_in_loop conn conn_loop conn_label s =
    (record s { connections = erase conn_label s.connections }, queue_destroyed conn_loop conn ∷ [])

-- The destructor: each connection is destroyed on its loop.
unfoldable pub destroy : (ℕ → ℕ) → Connections → List Call
destroy loop_of [] = []
destroy loop_of ((k, c) ∷ m) = run_destroyed (loop_of c) c ∷ destroy loop_of m
