-- ===== src/EchoServer/Examples.antt =====
-- An echo of two bytes.
use echo_server.Prelude.{ℕ, ◌≡◌, refl, List, [], ◌∷◌, arith, length, some, true}
use echo_server.Buffer
use echo_server.Buffer.{moved}
use echo_server.Buffer.Invariant.{IsValid, init-IsValid}
use echo_server.TcpConnection.{
  TcpConnection, SendReply, sent, init, connected, written, handle_read, connect_established, send,
}
use echo_server.EchoServer.{on_message}
use echo_server.Channel.{none_event}
use echo_server.Reactor.{establish, destroy}
use echo_server.TcpServer.Callbacks.{invoke}
use echo_server.EchoServer.Callbacks.{
  Turn, active, functor, all_turns, echo_handlers, Among, all_turns-Among,
}
use echo_server.EchoServer.Stream.{handle_reads, all_written, Idle, AllFit, handle_reads-echo}

-- A new connection that is set up.
abbrev fresh : TcpConnection
fresh = (connect_established (init 9)).0

-- The kernel takes all.
abbrev takes_all : List ℕ → SendReply
takes_all bytes = sent 2

echo :
    (handle_read (on_message takes_all 0) (moved (104 ∷ 105 ∷ [])) fresh).1
    ≡ written (104 ∷ 105 ∷ []) ∷ []
unfolding handle_read on_message init connect_established Buffer.read_fd Buffer.append send
echo = refl

fresh-connected : fresh.state ≡ connected
unfolding connect_established
fresh-connected = refl

fresh-IsValid : IsValid fresh.input
unfolding connect_established init
fresh-IsValid = init-IsValid 1024 (omega arith)

fresh_size : length fresh.input.storage ≡ 1032
unfolding connect_established init
fresh_size = refl

-- Two reads of the new connection, which has room for 1024 bytes.
abbrev two_reads : List (List ℕ)
two_reads = (104 ∷ 105 ∷ []) ∷ (33 ∷ []) ∷ []

fresh-Idle : Idle 1024 fresh
unfolding connect_established init
fresh-Idle = record { open_state = refl; reader = refl; writer = refl; room = refl; ready = refl }

two_reads-AllFit : AllFit 1024 two_reads
two_reads-AllFit = (((λ e. cc), omega arith), (((λ e. cc), omega arith), tt))

handle_reads-echo_example :
    let (d, es) = handle_reads 0 two_reads fresh in
    (all_written es ≡ 104 ∷ 105 ∷ 33 ∷ []) × Idle 1024 d
handle_reads-echo_example =
    handle_reads-echo 1024 (omega arith) 0 two_reads fresh two_reads-AllFit fresh-Idle

-- A connection is set up, echoes two bytes, hangs up and is destroyed.
abbrev turns : List Turn
turns =
    functor establish
    ∷ active (record none_event { input = true }) (moved (104 ∷ 105 ∷ [])) moved takes_all
    ∷ active (record none_event { hangup = true }) (moved []) moved takes_all
    ∷ functor destroy
    ∷ []

all_turns-Among_example :
    (fs : List ℕ) × (invoke (echo_handlers 1 2 3) (all_turns turns (init 9)).1 ≡ some fs)
    × Among 2 1 fs
    × ((echo_handlers 1 2 3).on_message ≡ some 3)
all_turns-Among_example = all_turns-Among 1 2 3 turns 9
