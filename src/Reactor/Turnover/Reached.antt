-- ===== src/Reactor/Turnover/Reached.antt =====
-- What holds of a loop's connections however they come and go.
use echo_server.Prelude.{
  same_some, ℕ, ◌≡◌, refl, inl, inr, true, none, some, Option, List, [], ◌∷◌, arith, Bool,
}
use echo_server.Channel.{Events, Index, new, added, deleted}
use echo_server.Poller.{Epoll, Poller, poll}
use echo_server.Poller.Registration.{Matches}
use echo_server.TcpConnection.{TcpConnection, Run}
use echo_server.TcpConnection.Synced.{IsSynced}
use echo_server.Reactor.{Round, Reactor, round}
use echo_server.Reactor.Served.{Served}
use echo_server.Reactor.Serving.{all_live, reported, owners, poll-reported, round-Served}
use echo_server.Reactor.Turnover.{
  World, GenuineReport, Step, created, released, turned, Reach, started, stepped,
}
use echo_server.Reactor.Turnover.Created.{create-Served, release-Served}

module _ (os : Epoll) where
  open os use {entry}

  -- The kernel's data pointers lead to living connections.
  entry-Live :
      (live : ℕ → Bool) (conns : ℕ → TcpConnection) (r : Poller os) (k p : ℕ) (e : Events)
      → Served os live conns r
      → entry r.interest k ≡ some (e, p)
      → live p ≡ true
  entry-Live live conns r k p e w h = elim (w.owned k) [
    | inl (f, g) ↦ cc
    | inr (q, lq, same) ↦
        let same_entry : entry r.interest (r.store q).fd ≡ some (e, p) = rw same h in
        rw (← pointer q (r.store q).index (w.wired q lq).registered same_entry) lq
  ]
    where
      pointer :
          (q : ℕ) (i : Index)
          → Matches os i (r.store q).fd (r.store q).events q r
          → entry r.interest (r.store q).fd ≡ some (e, p)
          → q ≡ p
      pointer q new m g = cc
      pointer q deleted m g = cc
      pointer q added m g = cc

  Genuine-Live :
      (live : ℕ → Bool) (conns : ℕ → TcpConnection) (r : Poller os)
      (report : Option (List (ℕ × Events)))
      → Served os live conns r
      → GenuineReport os report r.interest
      → all_live live (reported report) ≡ true
  Genuine-Live live conns r none w g = refl
  Genuine-Live live conns r (some []) w g = refl
  Genuine-Live live conns r (some ((p, e) ∷ es)) w ((k, asked, h), g) =
      rw (entry-Live live conns r k p asked w h, Genuine-Live live conns r (some es) w g)

  module _ (on_message : ℕ → TcpConnection → Run) (keeps : (p : ℕ) → IsSynced (on_message p)) where
    -- A round that the kernel reports genuinely, with functors of living connections.
    round-Ends :
        (w : Round) (x : World os)
        → Served os x.live x.conns x.poller
        → GenuineReport os w.report x.poller.interest
        → all_live x.live (owners w.jobs) ≡ true
        → (y : Reactor os on_message) × (round os on_message w (x.conns, x.poller) ≡ some y)
          × Served os x.live y.0 y.1
    round-Ends w x v g h =
        round-Served os x.live on_message keeps w (x.conns, x.poller)
          (rw (Genuine-Live x.live x.conns x.poller w.report v g, h)) v

    Step-Served :
        (x y : World os)
        → Step os on_message x y
        → Served os x.live x.conns x.poller
        → Served os y.live y.conns y.poller
    Step-Served _ _ (created p fd x0 free fresh) v = create-Served os p fd x0 v free fresh
    Step-Served _ _ (released p x lp off) v = release-Served os p x v lp off
    Step-Served _ _ (turned w x y g h e) v =
        let (z, done, kept) = round-Ends w x v g h in
        rw (same_some (round os on_message w (x.conns, x.poller)) y z e done) kept

    pub Reach-Served : (x : World os) → Reach os on_message x → Served os x.live x.conns x.poller
    Reach-Served x (started _ nobody nothing) = record {
      wired = λ p lp. ground (arith, nobody p);
      apart = λ p q lp lq ne. ground (arith, nobody p);
      owned = λ k. inl (nothing k);
    }
    Reach-Served y (stepped x _ r s) = Step-Served x y s (Reach-Served x r)

    -- Let connections of a loop that starts with none be made, for descriptors that no living one
    -- has, run through rounds, and be destroyed once their channels are off the poller, in any
    -- order, addresses and descriptors used again, and let the message callback keep a connection
    -- in agreement with its channel. Whenever `epoll_wait` then reports entries of the interest
    -- set, with any events, and the queue holds functors of living connections, every channel that
    -- `poll` hands to the loop is a living connection's, and the round runs through without an
    -- abort. After it every living connection agrees with the poller and the kernel on its
    -- channel, no two of them have one descriptor, and map and interest set know only descriptors
    -- of theirs.
    pub Reach-proceeds :
        (x : World os) (w : Round)
        → Reach os on_message x
        → GenuineReport os w.report x.poller.interest
        → all_live x.live (owners w.jobs) ≡ true
        → (all_live x.live (poll os w.report x.poller).0 ≡ true)
          × ((y : Reactor os on_message) × (round os on_message w (x.conns, x.poller) ≡ some y)
              × Served os x.live y.0 y.1)
    Reach-proceeds x w r g h =
        let v = Reach-Served x r in
        (
          rw (poll-reported os x.live w.report x.poller)
              (Genuine-Live x.live x.conns x.poller w.report v g),
          round-Ends w x v g h,
        )
