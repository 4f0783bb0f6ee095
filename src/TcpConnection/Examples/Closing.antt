-- ===== src/TcpConnection/Examples/Closing.antt =====
-- A connection on a poller: hung up with an error, and set up.
use echo_server.Prelude.{◌≤◌, ◌≡◌, refl, true, none, some, [], ◌∷◌, arith}
use echo_server.Buffer.{moved}
use echo_server.Channel.{none_event, read_event, init as new_channel}
use echo_server.Poller.{Poller, find, put}
use echo_server.Poller.Table.{table, write}
use echo_server.TcpConnection.{TcpConnection, Run, dispatch}
use echo_server.TcpConnection.Examples.{socket, open_connection}
use echo_server.TcpConnection.Lifecycle.{
  Advances, stage, dispatch-Advances, closes, dispatch-closes_twice,
}
use echo_server.TcpConnection.Synced.{IsSynced}
use echo_server.TcpConnection.Wiring.{IsWired}

-- The poller has reported a hangup and an error.
abbrev broken : TcpConnection
broken = record open_connection {
  channel = record socket { revents = record none_event { hangup = true; error = true } };
}

-- A message callback that does nothing.
abbrev ignore : TcpConnection → Run
ignore c = (c, [])

ignore-Advances : Advances ignore
ignore-Advances c = omega arith

ignore-IsSynced : IsSynced ignore
ignore-IsSynced c = refl

dispatch-Advances_example : 1 ≤ stage (dispatch ignore (moved []) moved broken).0
dispatch-Advances_example = dispatch-Advances ignore (moved []) moved ignore-Advances broken

dispatch-closes_twice_example : closes (dispatch ignore (moved []) moved broken).1 ≡ 2
dispatch-closes_twice_example =
    (dispatch-closes_twice ignore (moved []) moved broken refl refl refl refl refl).1

-- The poller has the connection's channel at address 0.
abbrev reactor : Poller table
reactor = record {
  store = put (λ p. new_channel p) 0 socket;
  channels = (3, 0) ∷ [];
  interest = write 3 (some (read_event, 0)) (λ k. none);
  list_size = 16;
}

reactor-IsWired : IsWired table 0 broken reactor
unfolding find
reactor-IsWired = record { registered = (refl, refl); agrees = refl }
