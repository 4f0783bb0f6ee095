-- ===== src/Reactor/Departure/Examples.antt =====
-- A connection of the echo server whose peer has hung up, in a server's table under its name.
use echo_server.Prelude.{◌<◌, ◌≡◌, refl, none, some, [], ◌∷◌, arith, if◌then◌else◌}
use echo_server.Buffer.{moved}
use echo_server.Channel.{new, save_revents}
use echo_server.Poller.{Poller, find, poll, apply_change, remove_channel}
use echo_server.Poller.Table.{table}
use echo_server.TcpConnection
use echo_server.TcpConnection.{dispatch}
use echo_server.TcpConnection.Lifecycle.{closes}
use echo_server.TcpConnection.Wiring.{perform, perform_all}
use echo_server.TcpServer
use echo_server.TcpServer.{TcpServer, Text, text_eq}
use echo_server.TcpServer.Examples.{server, server-Inv}
use echo_server.TcpServer.Table.{Inv}
use echo_server.Reactor.{Reactor, report_events, round}
use echo_server.Reactor.Served.{Served, Unknown, poll-Served}
use echo_server.Reactor.Turnover.Reached.{Reach-Served}
use echo_server.Reactor.Departure.{depart}
use echo_server.Reactor.Departure.Gone.{depart-Gone}
use echo_server.Reactor.Examples.{
  echo, echo-IsSynced, established, established-Reach, closing, after,
}

abbrev reported : Poller table
reported = (poll table closing.report established.poller).1

reported-Served : Served table established.live established.conns reported
unfolding after
reported-Served =
    poll-Served table established.live closing.report established.conns established.poller
      (Reach-Served table echo echo-IsSynced established established-Reach)

some_close :
    0
    < closes
        (dispatch
          (echo 0)
          (moved [])
          moved
          (report_events (reported.store 0) (established.conns 0))).1
unfolding after round find poll perform_all perform apply_change TcpConnection.init
    TcpConnection.dispatch report_events save_revents remove_channel
some_close = omega arith

-- "echo-h:80#1"
abbrev label : Text
label = 101 ∷ 99 ∷ 104 ∷ 111 ∷ 45 ∷ 104 ∷ 58 ∷ 56 ∷ 48 ∷ 35 ∷ 49 ∷ []

depart-Gone_example :
    (t : TcpServer) × (z : Reactor table echo) × (depart table echo
        (moved [])
        moved
        0
        10
        label
        (server, (established.conns, reported))
      ≡ some (t, z))
    × Inv t
    × ((k : Text)
        → TcpServer.find k t.connections
          ≡ (if text_eq label k then none else TcpServer.find k server.connections))
    × ((z.1.store 0).index ≡ new)
    × Unknown table established.live (z.1.store 0).fd z.1
    × Served table established.live z.0 z.1
unfolding after
depart-Gone_example =
    depart-Gone table established.live echo echo-IsSynced 0 refl (moved []) moved 10 label server
      established.conns reported server-Inv reported-Served some_close
