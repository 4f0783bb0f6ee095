-- ===== src/Reactor/Departure.antt =====
-- A connection that closes, on its way through the loops: its close callback has
-- `removeConnectionInLoop` of src/TcpServer.cc run in the base loop, which has `connectDestroyed`
-- of src/TcpConnection.cc run in the connection's own loop.
pub mod Removals
pub mod Gone
mod Examples
use echo_server.Prelude.{ℕ, Option, none, some, List, [], ◌∷◌, ◌++◌}
use echo_server.Buffer.{Reply}
use echo_server.Poller.{Epoll}
use echo_server.TcpConnection.{TcpConnection, Run, Effect, close_callback, dispatch}
use echo_server.TcpServer.{
  TcpServer, Text, Call, run_removal, queue_destroyed, remove_connection, remove_connection_in_loop,
}
use echo_server.Reactor.{Reactor, Job, destroy, report_events, run_at, do_jobs}

-- What the connection's handlers have the base loop do: `closeCallback_` is `removeConnection`.
unfoldable pub told : ℕ → List Effect → List Call
unfolding remove_connection
told conn [] = []
told conn (close_callback ∷ es) = remove_connection conn ++ told conn es
told conn (_ ∷ es) = told conn es

-- The base loop runs the removals. `conn_loop` and `conn_label` are the connection's own.
unfoldable pub remove_all : ℕ → Text → List Call → TcpServer → TcpServer × List Call
unfolding remove_connection_in_loop
remove_all conn_loop conn_label [] s = (s, [])
remove_all conn_loop conn_label (run_removal conn ∷ cs) s =
    let (t, queued) = remove_connection_in_loop conn conn_loop conn_label s in
    let (u, rest) = remove_all conn_loop conn_label cs t in (u, queued ++ rest)
remove_all conn_loop conn_label (_ ∷ cs) s = remove_all conn_loop conn_label cs s

-- The functors that this puts in the queue of the connection's loop.
unfoldable pub jobs_of : List Call → List (ℕ × Job)
jobs_of [] = []
jobs_of (queue_destroyed loop conn ∷ cs) = (conn, destroy) ∷ jobs_of cs
jobs_of (_ ∷ cs) = jobs_of cs

module _ (os : Epoll) (on_message : ℕ → TcpConnection → Run) where
  -- The channel at address `p` is active: its connection's handlers, what the base loop does about
  -- them, and what the connection's loop does about that.
  unfoldable pub depart :
      Reply
      → (List ℕ → Reply)
      → ℕ
      → ℕ
      → Text
      → TcpServer × Reactor os on_message
      → Option (TcpServer × Reactor os on_message)
  depart reply kernel p conn_loop conn_label (s, (conns, r)) =
      let f = dispatch (on_message p) reply kernel in
      let (d, es) = f (report_events (r.store p) (conns p)) in
      elim (run_at os on_message p f (conns, r)) [
        | none ↦ none
        | some y ↦
            let (t, calls) = remove_all conn_loop conn_label (told p es) s in
            elim (do_jobs os on_message (jobs_of calls) y) [ none ↦ none | some z ↦ some (t, z) ]
      ]
