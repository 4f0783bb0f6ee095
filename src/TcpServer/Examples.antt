-- ===== src/TcpServer/Examples.antt =====
-- A server with one connection, on a pool with two loops.
use echo_server.Prelude.{◌≡◌, refl, true, [], ◌∷◌, none, some, arith}
use echo_server.Decimal.{decimal}
use echo_server.EventLoopThreadPool.{EventLoopThreadPool, get_next_loop}
use echo_server.TcpServer.{
  find, TcpServer, suffix, conn_name, new_connection, remove_connection_in_loop, run_established,
}
use echo_server.TcpServer.Table.{Inv, new_connection-fresh, remove_connection_lem}

abbrev pool : EventLoopThreadPool
pool = record { base_loop = 0; started = true; num_threads = 2; next = 1; loops = 10 ∷ 11 ∷ [] }

-- Named "echo", at "h:80".
abbrev pub server : TcpServer
server = record {
  ip_port = 104 ∷ 58 ∷ 56 ∷ 48 ∷ [];
  name = 101 ∷ 99 ∷ 104 ∷ 111 ∷ [];
  pool = pool;
  started = 1;
  next_conn_id = 2;
  connections = (101 ∷ 99 ∷ 104 ∷ 111 ∷ 45 ∷ 104 ∷ 58 ∷ 56 ∷ 48 ∷ 35 ∷ 49 ∷ [], 500) ∷ [];
}

pub server-Inv : Inv server
unfolding suffix decimal
server-Inv = record {
  short = omega arith;
  small = omega arith;
  named = ((1, omega arith, refl), tt);
}

after : TcpServer
after = record server {
  pool = record pool { next = 0 };
  next_conn_id = 3;
  connections =
      (101 ∷ 99 ∷ 104 ∷ 111 ∷ 45 ∷ 104 ∷ 58 ∷ 56 ∷ 48 ∷ 35 ∷ 49 ∷ [], 500)
      ∷ (101 ∷ 99 ∷ 104 ∷ 111 ∷ 45 ∷ 104 ∷ 58 ∷ 56 ∷ 48 ∷ 35 ∷ 50 ∷ [], 501)
      ∷ [];
}

new_connection_run : new_connection 501 server ≡ some (after, run_established 11 501 ∷ [])
unfolding new_connection suffix after get_next_loop decimal
new_connection_run = refl

new_connection-fresh_example : find (conn_name server) server.connections ≡ none
new_connection-fresh_example =
    (new_connection-fresh 501 server after (run_established 11 501 ∷ []) server-Inv (omega arith)
      new_connection_run).0

remove_connection_lem_example : Inv (remove_connection_in_loop 500 10 (conn_name server) server).0
remove_connection_lem_example =
    (remove_connection_lem 500 10 (conn_name server) server server-Inv).0
