-- ===== src/Reactor/Alone/Examples.antt =====
-- Two connections of the echo server: the first has something to read in two rounds, the second
-- hangs up in the first of them and is destroyed.
use echo_server.Prelude.{
  ℕ, suc, ◌≡◌, ◌≢◌, ◌⊎◌, inl, inr, refl, Bool, true, none, some, List, [], ◌∷◌, arith, ◌||◌, ◌==◌,
  if◌then◌else◌, zero,
}
use echo_server.Buffer.{moved}
use echo_server.Channel.{Channel, none_event, read_event}
use echo_server.Poller.{Poller, find, put}
use echo_server.Poller.Table.{table, write}
use echo_server.TcpConnection.{TcpConnection}
use echo_server.TcpConnection.Examples.{socket, open_connection}
use echo_server.TcpConnection.Wiring.{IsWired}
use echo_server.Reactor.{Reactor, Round, destroy, loop}
use echo_server.Reactor.Served.{Served, Unknown, Owned}
use echo_server.Reactor.Alone.{loop_alone}
use echo_server.Reactor.Alone.Equal.{loop-loop_alone}
use echo_server.Reactor.Examples.{echo, echo-IsSynced}

abbrev second_socket : Channel
second_socket = record socket { fd = 4 }

abbrev conns : ℕ → TcpConnection
conns p = if p == 1 then record open_connection { channel = second_socket } else open_connection

abbrev poller : Poller table
poller = record {
  store = put (λ p. socket) 1 second_socket;
  channels = (3, 0) ∷ (4, 1) ∷ [];
  interest = write 4 (some (read_event, 1)) (write 3 (some (read_event, 0)) (λ k. none));
  list_size = 16;
}

abbrev live : ℕ → Bool
live p = p == 0 || p == 1

abbrev rounds : List Round
rounds =
    record {
      report = some ((0, read_event) ∷ (1, record none_event { hangup = true }) ∷ []);
      reads = λ p. moved (7 ∷ 8 ∷ []);
      writes = λ p. moved;
      jobs = (1, destroy) ∷ [];
    }
    ∷ record {
      report = some ((0, read_event) ∷ []);
      reads = λ p. moved (9 ∷ []);
      writes = λ p. moved;
      jobs = [];
    }
    ∷ []

conns-IsWired : (p : ℕ) → live p ≡ true → IsWired table p (conns p) poller
unfolding find
conns-IsWired zero lp = record { registered = (refl, refl); agrees = refl }
conns-IsWired (suc zero) lp = record { registered = (refl, refl); agrees = refl }
conns-IsWired (suc (suc p)) lp = ground arith

fds_apart :
    (p q : ℕ) → live p ≡ true → live q ≡ true → p ≢ q → (poller.store p).fd ≢ (poller.store q).fd
fds_apart zero zero lp lq ne = ground arith
fds_apart zero (suc zero) lp lq ne = omega arith
fds_apart (suc zero) zero lp lq ne = omega arith
fds_apart (suc zero) (suc zero) lp lq ne = ground arith
fds_apart (suc (suc p)) q lp lq ne = ground arith
fds_apart zero (suc (suc q)) lp lq ne = ground arith
fds_apart (suc zero) (suc (suc q)) lp lq ne = ground arith

fds-Owned : (k : ℕ) → Unknown table live k poller ⊎ Owned table live k poller
unfolding find
fds-Owned zero = inl (refl, refl)
fds-Owned (suc zero) = inl (refl, refl)
fds-Owned (suc (suc zero)) = inl (refl, refl)
fds-Owned (suc (suc (suc zero))) = inr (0, refl, refl)
fds-Owned (suc (suc (suc (suc zero)))) = inr (1, refl, refl)
fds-Owned (suc (suc (suc (suc (suc k))))) = inl (ground arith, ground arith)

served : Served table live conns poller
served = record { wired = conns-IsWired; apart = fds_apart; owned = fds-Owned }

loop-loop_alone_example :
    (y : Reactor table echo) × (loop table echo rounds (conns, poller) ≡ some y)
    × Served table live y.0 y.1
    × ((p : ℕ) → y.0 p ≡ (loop_alone echo p rounds (conns p, (poller.store p).revents)).0)
loop-loop_alone_example =
    loop-loop_alone table live echo echo-IsSynced rounds (conns, poller) refl served
