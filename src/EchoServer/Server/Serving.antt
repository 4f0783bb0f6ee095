-- ===== src/EchoServer/Server/Serving.antt =====
-- From the answers of `accept4` to the table of connections.
use echo_server.Prelude.{
  ℕ, ◌+◌, ◌^◌, ◌<◌, ◌≤◌, ◌≡◌, refl, ap, ◌∙◌, true, Bool, List, [], ◌∷◌, ◌++◌, Option, none, some,
  arith, length, get_elem?, append-nil,
}
use echo_server.Acceptor
use echo_server.Acceptor.{Acceptor}
use echo_server.EventLoopThreadPool
use echo_server.InetAddress.{Net, InetAddress, from_parts}
use echo_server.InetAddress.Text.{to_ip_port-parts, from_parts-IsValid}
use echo_server.Socket
use echo_server.Socket.{Accepted, connection, failed}
use echo_server.TcpServer
use echo_server.TcpServer.{TcpServer, find, new_connection, Call}
use echo_server.EchoServer.Server.{
  accept_all, main_server, main_acceptor, take_handed, serve, init, start, loopback,
}
use echo_server.EchoServer.Server.Accepting.{Ready, in_turn, label, accept_all-Accepted}

-- The connections that are made, among the answers.
abbrev pub made : (ℕ → InetAddress → ℕ) → List Accepted → List ℕ
made make [] = []
made make (connection fd peer ∷ rs) = make fd peer ∷ made make rs
made make (failed errno ∷ rs) = made make rs

length-made : (make : ℕ → InetAddress → ℕ) (rs : List Accepted) → length (made make rs) ≤ length rs
length-made make [] = omega arith
length-made make (connection fd peer ∷ rs) = omega (arith, length-made make rs)
length-made make (failed errno ∷ rs) = omega (arith, length-made make rs)

abbrev Made : Type 0
Made = Option (TcpServer × List Call)

-- What is done behind a connection, if it was made.
abbrev behind : Made → (TcpServer → Made) → Made
behind o f = elim o [
  | none ↦ none
  | some x ↦ elim (f x.0) [ none ↦ none | some y ↦ some (y.0, x.1 ++ y.1) ]
]

behind-none : (o : Made) → elim o [ none ↦ none | some y ↦ some (y.0, [] ++ y.1) ] ≡ o
behind-none none = refl
behind-none (some y) = refl

behind-one :
    (o : Made) (f g : TcpServer → Made)
    → ((s : TcpServer) → f s ≡ g s)
    → behind (behind o (λ s. some (s, []))) f ≡ behind o g
behind-one none f g h = refl
behind-one (some x) f g h = rw (h x.0) (
    ap (λ calls. elim (g x.0) [ none ↦ none | some y ↦ some (y.0, calls ++ y.1) ]) (append-nil x.1))

-- With a callback, a row of answers is as many calls of `newConnection` as there are connections.
serve-accept_all :
    (make : ℕ → InetAddress → ℕ) (rs : List Accepted) (empty : InetAddress) (a : Acceptor)
    (s : TcpServer)
    → a.has_callback ≡ true
    → serve make rs empty a s ≡ accept_all (made make rs) s
unfolding serve accept_all take_handed Acceptor.handle_read Socket.accept
serve-accept_all make [] empty a s h = refl
serve-accept_all make (connection fd peer ∷ rs) empty a s h =
    rw (h, serve)
      (behind-one (new_connection (make fd peer) s) (serve make rs empty a)
        (accept_all (made make rs)) (λ t. serve-accept_all make rs empty a t h))
serve-accept_all make (failed errno ∷ rs) empty a s h =
    behind-none (serve make rs empty a s) ∙ serve-accept_all make rs empty a s h

has_callback-main_acceptor :
    (net : Net) (reply : Option ℕ) (bind_ok : Bool) (a : Acceptor) (calls : List Socket.Call)
    → main_acceptor net reply bind_ok ≡ some (a, calls)
    → a.has_callback ≡ true
unfolding main_acceptor Acceptor.init Acceptor.create_nonblocking
    Acceptor.set_new_connection_callback
has_callback-main_acceptor net reply bind_ok a calls e = ground (arith, e)

main_server-Ready :
    (net : Net) (memory base : ℕ) (spawn : ℕ → ℕ)
    → Ready spawn 0 (main_server net memory base spawn).0
unfolding main_server start TcpServer.start init TcpServer.init TcpServer.set_thread_num
    EventLoopThreadPool.init EventLoopThreadPool.start EventLoopThreadPool.set_thread_num
    EventLoopThreadPool.spawn_from
main_server-Ready net memory base spawn = record {
  table = record {
    short =
        (to_ip_port-parts net (from_parts net 8080 loopback)
          (from_parts-IsValid net 8080 loopback (omega arith))).0;
    small = omega arith;
    named = tt;
  };
  loops_are = refl;
  next_is = refl;
}

main_server-next_id :
    (net : Net) (memory base : ℕ) (spawn : ℕ → ℕ)
    → (main_server net memory base spawn).0.next_conn_id ≡ 1
unfolding main_server start TcpServer.start init TcpServer.init TcpServer.set_thread_num
main_server-next_id net memory base spawn = refl

-- The server that `main` has made and started, whose socket was created and bound, and any answers
-- of `accept4`, fewer than 2^31 - 1: no new connection is without a loop. The connections are set
-- up on the loops of the three threads in turn, and each stands in the table under a name of its
-- own; failed answers leave no trace.
pub main_server-serve :
    (net : Net) (memory base : ℕ) (spawn : ℕ → ℕ) (make : ℕ → InetAddress → ℕ) (reply : Option ℕ)
    (bind_ok : Bool) (a : Acceptor) (calls : List Socket.Call) (empty : InetAddress)
    (rs : List Accepted)
    → main_acceptor net reply bind_ok ≡ some (a, calls)
    → 1 + length rs < 2 ^ 31
    → let s = (main_server net memory base spawn).0 in
      let cs = made make rs in
      (t : TcpServer) × (serve make rs empty a s ≡ some (t, in_turn spawn 0 cs))
      × ((k : ℕ) → k < length cs → find (label s (1 + k)) t.connections ≡ get_elem? cs k)
main_server-serve net memory base spawn make reply bind_ok a calls empty rs e h =
    let s = (main_server net memory base spawn).0 in
    let id = main_server-next_id net memory base spawn in
    let (t, w) =
      accept_all-Accepted spawn 0 (made make rs) s (main_server-Ready net memory base spawn)
        (omega (arith, id, length-made make rs)) in
    let on = has_callback-main_acceptor net reply bind_ok a calls e in
    (t, serve-accept_all make rs empty a s on ∙ w.done, λ k lt. rw id at w.own k lt)
