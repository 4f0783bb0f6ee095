-- ===== src/Reactor.antt =====
-- `loop` and `doPendingFunctors` of src/EventLoop.cc with the connections that a loop serves. A
-- connection stands at the address of its channel in the poller's store. What the kernel answers
-- the reads and the writes of a connection in one round is a function of the address. The channels
-- of the wakeup and of the acceptor make no calls of the poller in a round, and are left out.
mod Served
mod Serving
mod Turnover
mod Departure
mod Alone
mod Examples
use echo_server.Prelude.{ℕ, Option, none, some, List, [], ◌∷◌, ◌==◌, if◌then◌else◌}
use echo_server.Buffer.{Reply}
use echo_server.Channel.{Channel, Events}
use echo_server.Poller.{Epoll, Poller, poll}
use echo_server.TcpConnection.{
  TcpConnection, Run, SendReply, dispatch, connect_established, connect_destroyed, shutdown_in_loop,
  send_in_loop,
}
use echo_server.TcpConnection.Wiring.{perform_all}

-- A channel is one object: the connection's copy takes over the events that the poller saved.
unfoldable pub report_events : Channel → TcpConnection → TcpConnection
report_events ch c = record c { channel = record c.channel { revents = ch.revents } }

abbrev pub seat : (ℕ → TcpConnection) → ℕ → TcpConnection → ℕ → TcpConnection
seat conns p c q = if p == q then c else conns q

-- What a functor in the queue of a connection's loop does to the connection. Which functors are in
-- the queue, and when, is in `EventLoop`.
pub data Job : Type 0 where
  establish destroy close_writing : Job
  send_bytes : (List ℕ → SendReply) → List ℕ → Job

unfoldable pub do_job : Job → TcpConnection → Run
unfolding connect_established connect_destroyed shutdown_in_loop send_in_loop
do_job establish c = connect_established c
do_job destroy c = connect_destroyed c
do_job close_writing c = shutdown_in_loop c
do_job (send_bytes kernel bytes) c = send_in_loop kernel bytes c

-- What the world does in one round.
pub record Round : Type 0 where
  pub report : Option (List (ℕ × Events))
  pub reads : ℕ → Reply
  pub writes : ℕ → List ℕ → Reply
  pub jobs : List (ℕ × Job)

-- The message callback may depend on the connection's address.
module _ (os : Epoll) (on_message : ℕ → TcpConnection → Run) where
  abbrev pub Reactor : Type 0
  Reactor = (ℕ → TcpConnection) × Poller os

  -- A connection's handler, with the calls that it makes of its channel; `none` is an abort.
  unfoldable pub run_at : ℕ → (TcpConnection → Run) → Reactor → Option Reactor
  run_at p f (conns, r) =
      let (d, es) = f (report_events (r.store p) (conns p)) in
      elim (perform_all os p es r) [ none ↦ none | some s ↦ some (seat conns p d, s) ]

  unfoldable pub handle_active :
      (ℕ → Reply) → (ℕ → List ℕ → Reply) → List ℕ → Reactor → Option Reactor
  unfolding run_at
  handle_active reads writes [] x = some x
  handle_active reads writes (p ∷ ps) x =
      elim (run_at p (dispatch (on_message p) (reads p) (writes p)) x) [
        | none ↦ none
        | some y ↦ handle_active reads writes ps y
      ]

  unfoldable pub do_jobs : List (ℕ × Job) → Reactor → Option Reactor
  unfolding run_at do_job
  do_jobs [] x = some x
  do_jobs ((p, j) ∷ js) x = elim (run_at p (do_job j) x) [ none ↦ none | some y ↦ do_jobs js y ]

  -- The body of the `while`: `poll`, the active channels, `doPendingFunctors`.
  unfoldable pub round : Round → Reactor → Option Reactor
  unfolding handle_active do_jobs
  round w (conns, r) =
      let (active, s) = poll os w.report r in
      elim (handle_active w.reads w.writes active (conns, s)) [
        | none ↦ none
        | some y ↦ do_jobs w.jobs y
      ]

  unfoldable pub loop : List Round → Reactor → Option Reactor
  unfolding round
  loop [] x = some x
  loop (w ∷ ws) x = elim (round w x) [ none ↦ none | some y ↦ loop ws y ]
