-- ===== src/Reactor/Serving.antt =====
-- A round of the loop keeps every connection in agreement with the poller and the kernel.
use echo_server.Prelude.{
  ℕ, ◌≡◌, refl, true, false, Option, none, some, List, [], ◌∷◌, arith, Bool, ◌&&◌,
}
use echo_server.Buffer.{Reply}
use echo_server.Channel.{Events}
use echo_server.Poller.{Epoll, Poller, poll}
use echo_server.Poller.Active.{pointers, poll-Reported}
use echo_server.TcpConnection.{TcpConnection, Run, dispatch, shutdown_in_loop}
use echo_server.TcpConnection.Synced.{
  IsSynced, dispatch-IsSynced, connect_established-IsSynced, connect_destroyed-IsSynced,
  send_in_loop-IsSynced,
}
use echo_server.TcpConnection.Wiring.{run-IsWired}
use echo_server.Reactor.{
  report_events, seat, Job, establish, destroy, close_writing, send_bytes, do_job, Round, Reactor,
  run_at, handle_active, do_jobs, round, loop,
}
use echo_server.Reactor.Served.{Served, poll-Served, report-IsWired, step-Served}

-- Whether every one of the channels is a connection's.
abbrev pub all_live : (ℕ → Bool) → List ℕ → Bool
all_live live [] = true
all_live live (p ∷ ps) = live p && all_live live ps

-- The addresses that a report, and the functors of a round, are about.
abbrev pub reported : Option (List (ℕ × Events)) → List ℕ
reported none = []
reported (some es) = pointers es

abbrev pub owners : List (ℕ × Job) → List ℕ
owners [] = []
owners ((p, j) ∷ js) = p ∷ owners js

abbrev pub concerns : (ℕ → Bool) → Round → Bool
concerns live w = all_live live (reported w.report) && all_live live (owners w.jobs)

abbrev pub all_concern : (ℕ → Bool) → List Round → Bool
all_concern live [] = true
all_concern live (w ∷ ws) = concerns live w && all_concern live ws

pub do_job-IsSynced : (j : Job) → IsSynced (do_job j)
unfolding do_job shutdown_in_loop
do_job-IsSynced establish c = connect_established-IsSynced c
do_job-IsSynced destroy c = connect_destroyed-IsSynced c
do_job-IsSynced close_writing c = ground arith
do_job-IsSynced (send_bytes kernel bytes) c = send_in_loop-IsSynced kernel bytes c

pub and-true : (a b : Bool) → (a && b) ≡ true → (a ≡ true) × (b ≡ true)
and-true true b h = (refl, h)
and-true false b h = ground (arith, h)

module _ (os : Epoll) (live : ℕ → Bool) where
  pub poll-reported :
      (report : Option (List (ℕ × Events))) (r : Poller os) → (poll os report r).0 ≡ reported report
  unfolding poll
  poll-reported none r = refl
  poll-reported (some []) r = refl
  poll-reported (some (e ∷ es)) r = (poll-Reported os e es r).0.active

  module _ (on_message : ℕ → TcpConnection → Run) (keeps : (p : ℕ) → IsSynced (on_message p)) where
    -- A computation on the reactor that ends, and serves its connections again.
    abbrev pub Serves : Option (Reactor os on_message) → Type 0
    Serves o = (y : Reactor os on_message) × (o ≡ some y) × Served os live y.0 y.1

    pub run_at-Served :
        (p : ℕ) (f : TcpConnection → Run) (x : Reactor os on_message)
        → IsSynced f
        → live p ≡ true
        → Served os live x.0 x.1
        → Serves (run_at os on_message p f x)
    unfolding run_at
    run_at-Served p f (conns, r) h lp w =
        let c = report_events (r.store p) (conns p) in
        let (s, done, v) =
          run-IsWired os p f c r h (report-IsWired os live p (conns p) r (w.wired p lp)) in
        let (d, es) = f c in
        (
          (seat conns p d, s),
          rw (done, run_at) refl,
          step-Served os live p d es conns r s lp w done v,
        )

    handle_active-Served :
        (reads : ℕ → Reply) (writes : ℕ → List ℕ → Reply) (ps : List ℕ) (x : Reactor os on_message)
        → all_live live ps ≡ true
        → Served os live x.0 x.1
        → Serves (handle_active os on_message reads writes ps x)
    unfolding handle_active
    handle_active-Served reads writes [] x h w = (x, refl, w)
    handle_active-Served reads writes (p ∷ ps) x h w =
        let (lp, lps) = and-true (live p) (all_live live ps) h in
        let f = dispatch (on_message p) (reads p) (writes p) in
        let (y, done, v) =
          run_at-Served p f x (dispatch-IsSynced (on_message p) (reads p) (writes p) (keeps p)) lp
            w in
        let (z, rest, kept) = handle_active-Served reads writes ps y lps v in
        (z, rw (done, handle_active) rest, kept)

    do_jobs-Served :
        (js : List (ℕ × Job)) (x : Reactor os on_message)
        → all_live live (owners js) ≡ true
        → Served os live x.0 x.1
        → Serves (do_jobs os on_message js x)
    unfolding do_jobs
    do_jobs-Served [] x h w = (x, refl, w)
    do_jobs-Served ((p, j) ∷ js) x h w =
        let (lp, ljs) = and-true (live p) (all_live live (owners js)) h in
        let (y, done, v) = run_at-Served p (do_job j) x (do_job-IsSynced j) lp w in
        let (z, rest, kept) = do_jobs-Served js y ljs v in (z, rw (done, do_jobs) rest, kept)

    pub round-Served :
        (w : Round) (x : Reactor os on_message)
        → concerns live w ≡ true
        → Served os live x.0 x.1
        → Serves (round os on_message w x)
    unfolding round
    round-Served w (conns, r) h v =
        let (la, lj) =
          and-true (all_live live (reported w.report)) (all_live live (owners w.jobs)) h in
        let (active, s) = poll os w.report r in
        let known : all_live live active ≡ true = rw (poll-reported w.report r) la in
        let (y, done, u) =
          handle_active-Served w.reads w.writes active (conns, s) known
            (poll-Served os live w.report conns r v) in
        let (z, rest, kept) = do_jobs-Served w.jobs y lj u in (z, rw (done, round) rest, kept)

    -- Rounds that report and queue for living connections only.
    pub loop-Served :
        (ws : List Round) (x : Reactor os on_message)
        → all_concern live ws ≡ true
        → Served os live x.0 x.1
        → Serves (loop os on_message ws x)
    unfolding loop
    loop-Served [] x h w = (x, refl, w)
    loop-Served (r ∷ rs) x h w =
        let (lr, lrs) = and-true (concerns live r) (all_concern live rs) h in
        let (y, done, v) = round-Served r x lr w in
        let (z, rest, kept) = loop-Served rs y lrs v in (z, rw (done, loop) rest, kept)
