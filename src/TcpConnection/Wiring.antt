-- ===== src/TcpConnection/Wiring.antt =====
-- The calls that a connection makes of its channel, carried out on the poller.
use echo_server.Prelude.{ℕ, ◌≡◌, refl, sym, ap, ◌∙◌, Option, none, some, List, [], ◌∷◌}
use echo_server.Buffer.{Reply}
use echo_server.Poller.{Epoll, Poller, apply_change, remove_channel}
use echo_server.Poller.Registration.{Registered, apply_change-Changed, remove_channel-Registered}
use echo_server.TcpConnection.{
  TcpConnection, Run, Effect, changed, unregistered, connection_callback, close_callback, queued,
  written, shutdown_write, connect_established, connect_destroyed, dispatch,
}
use echo_server.TcpConnection.Synced.{
  replay, replay-append, IsSynced, connect_established-IsSynced, connect_destroyed-IsSynced,
  dispatch-IsSynced,
}

module _ (os : Epoll) (p : ℕ) where
  -- What a call does to the poller that has the channel at address `p`; `none` is an abort.
  unfoldable pub perform : Effect → Poller os → Option (Poller os)
  perform (changed k) r = apply_change os k p r
  perform unregistered r = remove_channel os p r
  perform (connection_callback s) r = some r
  perform close_callback r = some r
  perform (queued t) r = some r
  perform (written bs) r = some r
  perform shutdown_write r = some r

  unfoldable pub perform_all : List Effect → Poller os → Option (Poller os)
  perform_all [] r = some r
  perform_all (e ∷ es) r = elim (perform e r) [ none ↦ none | some s ↦ perform_all es s ]

  pub record Performed (es : List Effect) (r s : Poller os) : Type 0 where
    pub ends : perform_all es r ≡ some s
    pub registered : Registered os p s
    pub events_are : (s.store p).events ≡ replay es (r.store p).events

  -- One call of a registered channel runs through, and leaves it registered.
  record Stepped (e : Effect) (r s : Poller os) : Type 0 where
    ends : perform e r ≡ some s
    registered : Registered os p s
    events_are : (s.store p).events ≡ replay (e ∷ []) (r.store p).events

  perform-Stepped :
      (e : Effect) (r : Poller os) → Registered os p r → (s : Poller os) × Stepped e r s
  unfolding perform
  perform-Stepped (changed k) r m =
      let (s, done, c) = apply_change-Changed os k p r m in
      (s, record { ends = done; registered = c.registered; events_are = c.events_are })
  perform-Stepped unregistered r m =
      let (s, done, again, _, _, kept, _) = remove_channel-Registered os p r m in
      (s, record { ends = done; registered = again; events_are = kept })
  perform-Stepped _ r m = (r, record { ends = refl; registered = m; events_are = refl })

  -- So do any calls.
  perform_all-Performed :
      (es : List Effect) (r : Poller os) → Registered os p r → (s : Poller os) × Performed es r s
  unfolding perform_all
  perform_all-Performed [] r m = (r, record { ends = refl; registered = m; events_are = refl })
  perform_all-Performed (e ∷ es) r m =
      let (s, one) = perform-Stepped e r m in
      let (t, rest) = perform_all-Performed es s one.registered in
      (
        t,
        record {
          ends = rw (one.ends, perform_all) rest.ends;
          registered = rest.registered;
          events_are =
              rest.events_are
              ∙ ap (replay es) one.events_are
              ∙ sym (replay-append (e ∷ []) es (r.store p).events);
        },
      )

  -- The poller has the channel registered, with the events that the connection believes in.
  pub record IsWired (c : TcpConnection) (r : Poller os) : Type 0 where
    pub registered : Registered os p r
    pub agrees : (r.store p).events ≡ c.channel.events

  pub run-IsWired :
      (f : TcpConnection → Run) (c : TcpConnection) (r : Poller os)
      → IsSynced f
      → IsWired c r
      → (s : Poller os) × (perform_all (f c).1 r ≡ some s) × IsWired (f c).0 s
  run-IsWired f c r h w =
      let (s, q) = perform_all-Performed (f c).1 r w.registered in
      (
        s,
        q.ends,
        record {
          registered = q.registered;
          agrees = q.events_are ∙ ap (replay (f c).1) w.agrees ∙ sym (h c);
        },
      )

  -- Let poller, kernel and connection agree on the channel's index and events. Whatever the poller
  -- reports and the kernel answers, the calls that a connection makes of its channel never abort
  -- the program, and afterwards the poller, the kernel and the connection agree again on the
  -- channel's index and events, if the message callback keeps them in agreement.
  pub dispatch-IsWired :
      (on_message : TcpConnection → Run) (reply : Reply) (kernel : List ℕ → Reply)
      (c : TcpConnection) (r : Poller os)
      → IsSynced on_message
      → IsWired c r
      → let (d, es) = dispatch on_message reply kernel c in
        (s : Poller os) × (perform_all es r ≡ some s) × IsWired d s
  dispatch-IsWired on_message reply kernel c r h w =
      run-IsWired (dispatch on_message reply kernel) c r
        (dispatch-IsSynced on_message reply kernel h) w

  -- So too when the connection is set up, and when it is destroyed.
  pub connect-IsWired :
      (c : TcpConnection) (r : Poller os)
      → IsWired c r
      → (s : Poller os) × (perform_all (connect_established c).1 r ≡ some s)
        × IsWired (connect_established c).0 s
  connect-IsWired c r w = run-IsWired connect_established c r connect_established-IsSynced w

  pub destroy-IsWired :
      (c : TcpConnection) (r : Poller os)
      → IsWired c r
      → (s : Poller os) × (perform_all (connect_destroyed c).1 r ≡ some s)
        × IsWired (connect_destroyed c).0 s
  destroy-IsWired c r w = run-IsWired connect_destroyed c r connect_destroyed-IsSynced w
