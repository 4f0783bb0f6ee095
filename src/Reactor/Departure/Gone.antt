-- ===== src/Reactor/Departure/Gone.antt =====
-- What is left of a connection that has closed.
use echo_server.Prelude.{
  same_some, ℕ, zero, suc, ◌<◌, ◌≡◌, refl, Bool, true, none, some, List, [], ◌∷◌, arith,
  if◌then◌else◌,
}
use echo_server.Buffer.{Reply}
use echo_server.Channel.{Index, new, added, deleted, disable_all}
use echo_server.Poller.{Epoll, Poller}
use echo_server.Poller.Registration.{Matches, Registered, remove_channel-Registered}
use echo_server.Poller.Frame.Removal.{taken_off}
use echo_server.TcpConnection.{
  TcpConnection, Run, changed, unregistered, connection_callback, State, connecting, connected,
  disconnecting, disconnected, connect_destroyed, dispatch,
}
use echo_server.TcpConnection.Lifecycle.{closes}
use echo_server.TcpConnection.Synced.{IsSynced, dispatch-IsSynced}
use echo_server.TcpConnection.Wiring.{perform, perform_all, run-IsWired}
use echo_server.TcpServer
use echo_server.TcpServer.{TcpServer, Text, text_eq, Call, remove_connection_in_loop}
use echo_server.TcpServer.Table.{Inv}
use echo_server.Reactor.{Reactor, destroy, do_job, report_events, seat, run_at, do_jobs}
use echo_server.Reactor.Served.{Served, Unknown, report-IsWired, step-Served}
use echo_server.Reactor.Serving.{run_at-Served, do_job-IsSynced}
use echo_server.Reactor.Departure.{depart}
use echo_server.Reactor.Departure.Removals.{destructions, behind, behind-jobs, behind-Removed}

module _ (os : Epoll) (p : ℕ) where
  calls_connected :
      (c : TcpConnection)
      → c.state ≡ connected
      → (connect_destroyed c).1
        ≡ changed disable_all ∷ connection_callback disconnected ∷ unregistered ∷ []
  unfolding connect_destroyed
  calls_connected c e = rw e refl

  one_call :
      (r s : Poller os)
      → Registered os p r
      → perform_all os p (unregistered ∷ []) r ≡ some s
      → (s.store p).index ≡ new
  unfolding perform_all perform
  one_call r s m done =
      let (b, off, again, is_new, _, _, _) = remove_channel-Registered os p r m in
      let runs : perform_all os p (unregistered ∷ []) r ≡ some b = rw (off, perform_all) refl in
      rw (← same_some (perform_all os p (unregistered ∷ []) r) b s runs done) is_new

  all_calls :
      (r s : Poller os)
      → Registered os p r
      → perform_all os p
          (changed disable_all ∷ connection_callback disconnected ∷ unregistered ∷ [])
          r
        ≡ some s
      → (s.store p).index ≡ new
  unfolding perform_all perform
  all_calls r s m done =
      let es = changed disable_all ∷ connection_callback disconnected ∷ unregistered ∷ [] in
      let (a, b, first, second, off) = taken_off os p r m in
      let runs : perform_all os p es r ≡ some b = rw (first, perform_all) (rw (second) refl) in
      rw (← same_some (perform_all os p es r) b s runs done) off.is_new

  -- `connectDestroyed` takes the channel off, whatever state the connection is in.
  destroyed-new :
      (st : State) (c : TcpConnection) (r s : Poller os)
      → c.state ≡ st
      → Registered os p r
      → perform_all os p (connect_destroyed c).1 r ≡ some s
      → (s.store p).index ≡ new
  unfolding connect_destroyed
  destroyed-new connected c r s e m done = all_calls r s m (rw (← calls_connected c e) done)
  destroyed-new connecting c r s e m done = one_call r s m (rw e at done)
  destroyed-new disconnecting c r s e m done = one_call r s m (rw e at done)
  destroyed-new disconnected c r s e m done = one_call r s m (rw e at done)

module _ (os : Epoll) (live : ℕ → Bool) (on_message : ℕ → TcpConnection → Run)
    (keeps : (p : ℕ) → IsSynced (on_message p)) (p : ℕ) (lp : live p ≡ true) where
  -- The connections are served, and channel `p` is off the poller.
  record Off (x : Reactor os on_message) : Type 0 where
    served : Served os live x.0 x.1
    off : (x.1.store p).index ≡ new

  run_destroy-Off :
      (x : Reactor os on_message)
      → Served os live x.0 x.1
      → (y : Reactor os on_message) × (run_at os on_message p (do_job destroy) x ≡ some y) × Off y
  unfolding run_at do_job
  run_destroy-Off (conns, r) w =
      let f = do_job destroy in
      let c = report_events (r.store p) (conns p) in
      let own = w.wired p lp in
      let (s, done, v) =
        run-IsWired os p f c r (do_job-IsSynced destroy)
          (report-IsWired os live p (conns p) r own) in
      let (d, es) = f c in
      (
        (seat conns p d, s),
        rw (done, run_at) refl,
        record {
          served = step-Served os live p d es conns r s lp w done v;
          off = destroyed-new os p c.state c r s refl own.registered done;
        },
      )

  do_jobs-Off :
      (n : ℕ) (x : Reactor os on_message)
      → Served os live x.0 x.1
      → (y : Reactor os on_message) × (do_jobs os on_message (destructions p (suc n)) x ≡ some y)
        × Off y
  unfolding do_jobs
  do_jobs-Off zero x w = let (y, done, o) = run_destroy-Off x w in (y, rw (done, do_jobs) refl, o)
  do_jobs-Off (suc n) x w =
      let (y, done, o) = run_destroy-Off x w in
      let (z, rest, q) = do_jobs-Off n y o.served in (z, rw (done, do_jobs) rest, q)

  do_jobs-Off_pos :
      (n : ℕ) (x : Reactor os on_message)
      → 0 < n
      → Served os live x.0 x.1
      → (y : Reactor os on_message) × (do_jobs os on_message (destructions p n) x ≡ some y) × Off y
  do_jobs-Off_pos zero x h w = absurd (omega arith)
  do_jobs-Off_pos (suc n) x h w = do_jobs-Off n x w

  -- What a served channel that is off the poller leaves there.
  new-Unknown :
      (i : Index) (r : Poller os)
      → i ≡ new
      → Matches os i (r.store p).fd (r.store p).events p r
      → Unknown os live (r.store p).fd r
  new-Unknown new r e m = m
  new-Unknown added r e m = cc
  new-Unknown deleted r e m = cc

  -- Let the living connections be served, the message callback keep connections in agreement with
  -- their channels, and the names in the server's table be in order. When the handlers of a living
  -- connection call its close callback, once or more often, whatever its poller reported and the
  -- kernel answered, then the way through the two loops runs through without an abort. Afterwards
  -- the table has the connection's entry no more, and every other entry as it was; the connection's
  -- channel is off the poller, of whose descriptor neither map nor kernel knows anything; and the
  -- living connections are served.
  pub depart-Gone :
      (reply : Reply) (kernel : List ℕ → Reply) (conn_loop : ℕ) (label : Text) (s : TcpServer)
      (conns : ℕ → TcpConnection) (r : Poller os)
      → Inv s
      → Served os live conns r
      → 0 < closes (dispatch (on_message p) reply kernel (report_events (r.store p) (conns p))).1
      → (t : TcpServer) × (z : Reactor os on_message) × (depart os on_message reply kernel p
            conn_loop label
            (s, (conns, r))
          ≡ some (t, z))
        × Inv t
        × ((k : Text)
            → TcpServer.find k t.connections
              ≡ (if text_eq label k then none else TcpServer.find k s.connections))
        × ((z.1.store p).index ≡ new)
        × Unknown os live (z.1.store p).fd z.1
        × Served os live z.0 z.1
  unfolding depart
  depart-Gone reply kernel conn_loop label s conns r v w some_close =
      let f = dispatch (on_message p) reply kernel in
      let es = (f (report_events (r.store p) (conns p))).1 in
      let (y, done, u) =
        run_at-Served os live on_message keeps p f (conns, r)
          (dispatch-IsSynced (on_message p) reply kernel (keeps p)) lp w in
      let gone = behind-Removed p conn_loop label es s v some_close in
      let (z, rest, o) = do_jobs-Off_pos (closes es) y some_close u in
      let jobs = behind-jobs p conn_loop label es s in
      (
        (behind p conn_loop label es s).0,
        z,
        rw (done, depart) (rw (jobs, rest) refl),
        gone.in_order,
        gone.entries,
        o.off,
        new-Unknown (z.1.store p).index z.1 o.off (o.served.wired p lp).registered,
        o.served,
      )
