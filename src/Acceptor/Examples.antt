-- ===== src/Acceptor/Examples.antt =====
-- An acceptor on descriptor 3, whose channel is new.
use echo_server.Prelude.{◌+◌, ◌≡◌, refl, true, false, none, [], ◌∷◌}
use echo_server.Channel
use echo_server.Channel.{new, union, none_event, read_event}
use echo_server.InetAddress.{InetAddress, af_inet}
use echo_server.Poller.{Poller, find}
use echo_server.Poller.Registration.{Registered}
use echo_server.Poller.Table.{table}
use echo_server.Socket.{handed, connection, failed}
use echo_server.Acceptor.{Acceptor}
use echo_server.Acceptor.Hand.{handle_reads, each_connection, handle_reads_lem}

abbrev acceptor : Acceptor
acceptor = record { fd = 3; listening = false; has_callback = true }

abbrev fresh : Poller table
fresh = record {
  store = λ p. Channel.init (3 + p);
  channels = [];
  interest = λ k. none;
  list_size = 16;
}

fresh-Registered : Registered table 0 fresh
unfolding find Channel.init
fresh-Registered = (refl, refl)

abbrev peer : InetAddress
peer = record { family = af_inet; port = 1; addr = 2 }

abbrev empty : InetAddress
empty = record { family = af_inet; port = 0; addr = 0 }

handle_reads_lem_example :
    handle_reads (connection 8 peer ∷ failed 24 ∷ connection 9 peer ∷ []) empty acceptor
    ≡ handed 8 peer ∷ handed 9 peer ∷ []
unfolding each_connection
handle_reads_lem_example =
    handle_reads_lem (connection 8 peer ∷ failed 24 ∷ connection 9 peer ∷ []) empty acceptor
