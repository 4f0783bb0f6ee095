-- ===== src/EchoServer/Server/Examples.antt =====
-- Three answers on the started server, one of them a failure.
use echo_server.Prelude.{ℕ, ◌+◌, ◌<◌, ◌≡◌, refl, List, [], ◌∷◌, some, true, false, arith, get_elem?}
use echo_server.Acceptor
use echo_server.Acceptor.{Acceptor}
use echo_server.InetAddress.{InetAddress, af_inet, from_parts}
use echo_server.InetAddress.Examples.{numbers}
use echo_server.Socket
use echo_server.Socket.{Accepted, connection, failed, set_option, bound, reuse_addr, reuse_port}
use echo_server.TcpServer.{TcpServer, find}
use echo_server.EchoServer.Server.{main_server, main_acceptor, serve, loopback}
use echo_server.EchoServer.Server.Accepting.{in_turn, label}
use echo_server.EchoServer.Server.Serving.{main_server-serve}

abbrev spawn : ℕ → ℕ
spawn i = 100 + i

abbrev make : ℕ → InetAddress → ℕ
make fd peer = 1000 + fd

abbrev acceptor : Acceptor
acceptor = record { fd = 3; listening = false; has_callback = true }

abbrev calls : List Socket.Call
calls =
    set_option reuse_addr true 3
    ∷ set_option reuse_port true 3
    ∷ bound 3 (from_parts numbers 8080 loopback)
    ∷ []

acceptor_made : main_acceptor numbers (some 3) true ≡ some (acceptor, calls)
unfolding main_acceptor Acceptor.init Socket.set Socket.bind_address
    Acceptor.set_new_connection_callback
acceptor_made = refl

abbrev peer : InetAddress
peer = record { family = af_inet; port = 1; addr = 2 }

abbrev empty : InetAddress
empty = record { family = af_inet; port = 0; addr = 0 }

abbrev answers : List Accepted
answers = connection 7 peer ∷ failed 24 ∷ connection 9 peer ∷ []

main_server-serve_example :
    let s = (main_server numbers 0 1 spawn).0 in
    (t : TcpServer) × (serve make answers empty acceptor s
      ≡ some (t, in_turn spawn 0 (1007 ∷ 1009 ∷ [])))
    × ((k : ℕ) → k < 2 → find (label s (1 + k)) t.connections ≡ get_elem? (1007 ∷ 1009 ∷ []) k)
main_server-serve_example =
    main_server-serve numbers 0 1 spawn make (some 3) true acceptor calls empty answers
      acceptor_made (omega arith)
