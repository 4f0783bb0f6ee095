-- ===== src/Reactor/Alone/Equal.antt =====
-- In a loop, a connection does what it does alone.
use echo_server.Prelude.{
  chain_some, ℕ, ◌≡◌, refl, sym, ap, ◌∙◌, Option, none, some, List, [], ◌∷◌, ◌==◌, if◌then◌else◌,
  Bool, true, ℕ_discrete, ==-refl,
}
use echo_server.Buffer.{Reply}
use echo_server.Channel.{Channel, Events}
use echo_server.Poller.{Epoll, Poller, poll}
use echo_server.Poller.Active.{last_report, pointers, poll-Reported}
use echo_server.Poller.Frame.{Framed}
use echo_server.TcpConnection.Neighbours.{perform_all-Framed}
use echo_server.TcpConnection.{TcpConnection, Run, dispatch}
use echo_server.TcpConnection.Synced.{IsSynced}
use echo_server.TcpConnection.Wiring.{perform_all}
use echo_server.Reactor.{
  report_events, seat, Job, do_job, Round, Reactor, run_at, handle_active, do_jobs, round, loop,
}
use echo_server.Reactor.Served.{Served, ≢→==-false}
use echo_server.Reactor.Serving.{all_concern, loop-Served}
use echo_server.Reactor.Alone.{
  Alone, turn, active_alone, jobs_alone, entries, round_alone, loop_alone,
}

module _ (os : Epoll) where
  module _ (on_message : ℕ → TcpConnection → Run) (p : ℕ) where
    -- What connection `p` is in the loop.
    abbrev view : Reactor os on_message → Alone
    view x = (x.0 p, (x.1.store p).revents)

    moved-view :
        (q : ℕ) (f : TcpConnection → Run) (conns : ℕ → TcpConnection) (r s : Poller os)
        → Framed os q r s
        → view (seat conns q (f (report_events (r.store q) (conns q))).0, s)
          ≡ (if q == p then turn f (view (conns, r)) else view (conns, r))
    unfolding turn report_events
    moved-view q f conns r s h = elim (ℕ_discrete q p) [
      | yes same ↦
          rw (← same, ==-refl q)
            (ap (λ e. ((f (report_events (r.store q) (conns q))).0, e)) (h.saved q))
      | no other ↦ rw (≢→==-false q p other) (ap (λ e. (conns p, e)) (h.saved p))
    ]

    run_at-view :
        (q : ℕ) (f : TcpConnection → Run) (x y : Reactor os on_message)
        → run_at os on_message q f x ≡ some y
        → view y ≡ (if q == p then turn f (view x) else view x)
    unfolding run_at
    run_at-view q f (conns, r) y e =
        let (d, es) = f (report_events (r.store q) (conns q)) in
        let (s, done, ends) =
          chain_some (perform_all os q es r) (λ s. some (seat conns q d, s)) y e in
        let same : (seat conns q d, s) ≡ y = cc in
        rw (← same) (moved-view q f conns r s (perform_all-Framed os es q r s done))

    -- What happens to another connection is nothing to this one.
    own_turn :
        (F : ℕ → TcpConnection → Run) (q : ℕ) (v : Alone)
        → (if q == p then turn (F q) v else v) ≡ (if q == p then turn (F p) v else v)
    own_turn F q v = elim (ℕ_discrete q p) [
      | yes same ↦ ap (λ k. if q == p then turn (F k) v else v) same
      | no other ↦ rw (≢→==-false q p other) refl
    ]

    handle_active-view :
        (reads : ℕ → Reply) (writes : ℕ → List ℕ → Reply) (ps : List ℕ)
        (x y : Reactor os on_message)
        → handle_active os on_message reads writes ps x ≡ some y
        → view y ≡ active_alone p (dispatch (on_message p) (reads p) (writes p)) ps (view x)
    unfolding handle_active active_alone
    handle_active-view reads writes [] x y e = let same : x ≡ y = cc in ap view (sym same)
    handle_active-view reads writes (q ∷ qs) x y e =
        let F : ℕ → TcpConnection → Run = λ k. dispatch (on_message k) (reads k) (writes k) in
        let (z, d, rest) =
          chain_some (run_at os on_message q (F q) x) (handle_active os on_message reads writes qs)
            y e in
        handle_active-view reads writes qs z y rest
        ∙ ap (active_alone p (F p) qs) (run_at-view q (F q) x z d ∙ own_turn F q (view x))

    do_jobs-view :
        (js : List (ℕ × Job)) (x y : Reactor os on_message)
        → do_jobs os on_message js x ≡ some y
        → view y ≡ jobs_alone p js (view x)
    unfolding do_jobs jobs_alone
    do_jobs-view [] x y e = let same : x ≡ y = cc in ap view (sym same)
    do_jobs-view ((q, j) ∷ js) x y e =
        let (z, d, rest) =
          chain_some (run_at os on_message q (do_job j) x) (do_jobs os on_message js) y e in
        do_jobs-view js z y rest ∙ ap (jobs_alone p js) (run_at-view q (do_job j) x z d)

    poll-saved :
        (report : Option (List (ℕ × Events))) (r : Poller os)
        → (((poll os report r).1.store p).revents
            ≡ last_report p (entries report) (r.store p).revents)
          × ((poll os report r).0 ≡ pointers (entries report))
    unfolding poll
    poll-saved none r = (refl, refl)
    poll-saved (some []) r = (refl, refl)
    poll-saved (some (e ∷ es)) r =
        let h = (poll-Reported os e es r).0 in
        (ap (λ (c : Channel). c.revents) (h.saved p), h.active)

    round-view :
        (w : Round) (x y : Reactor os on_message)
        → round os on_message w x ≡ some y
        → view y ≡ round_alone on_message p w (view x)
    unfolding round round_alone
    round-view w (conns, r) y e =
        let (active, s) = poll os w.report r in
        let (saved, reported) = poll-saved w.report r in
        let f = dispatch (on_message p) (w.reads p) (w.writes p) in
        let (z, d, rest) =
          chain_some (handle_active os on_message w.reads w.writes active (conns, s))
            (do_jobs os on_message w.jobs) y e in
        do_jobs-view w.jobs z y rest
        ∙ ap (jobs_alone p w.jobs) (
            handle_active-view w.reads w.writes active (conns, s) z d
            ∙ ap (λ ps. active_alone p f ps (conns p, (s.store p).revents)) reported
            ∙ ap (λ ev. active_alone p f (pointers (entries w.report)) (conns p, ev)) saved)

    loop-view :
        (ws : List Round) (x y : Reactor os on_message)
        → loop os on_message ws x ≡ some y
        → view y ≡ loop_alone on_message p ws (view x)
    unfolding loop loop_alone
    loop-view [] x y e = let same : x ≡ y = cc in ap view (sym same)
    loop-view (w ∷ ws) x y e =
        let (z, d, rest) = chain_some (round os on_message w x) (loop os on_message ws) y e in
        loop-view ws z y rest ∙ ap (loop_alone on_message p ws) (round-view w x z d)

module _ (os : Epoll) (live : ℕ → Bool) (on_message : ℕ → TcpConnection → Run)
    (keeps : (p : ℕ) → IsSynced (on_message p)) where
  -- Let living connections be served and the message callback keep connections in agreement with
  -- their channels. Any number of rounds that report and queue for living connections only run
  -- through without an abort and leave the living connections served. Each connection comes out of
  -- them as it does alone, with nothing but its own reports, its own answers of the kernel and its
  -- own functors, in their order: no other connection of the loop has any influence on it.
  pub loop-loop_alone :
      (ws : List Round) (x : Reactor os on_message)
      → all_concern live ws ≡ true
      → Served os live x.0 x.1
      → (y : Reactor os on_message) × (loop os on_message ws x ≡ some y)
        × Served os live y.0 y.1
        × ((p : ℕ) → y.0 p ≡ (loop_alone on_message p ws (x.0 p, (x.1.store p).revents)).0)
  loop-loop_alone ws x h w =
      let (y, done, kept) = loop-Served os live on_message keeps ws x h w in
      (y, done, kept, λ p. ap (λ (a : Alone). a.0) (loop-view os on_message p ws x y done))
