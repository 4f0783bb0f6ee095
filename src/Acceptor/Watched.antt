-- ===== src/Acceptor/Watched.antt =====
-- The acceptor's channel in the poller, from `listen()` to the destructor.
use echo_server.Prelude.{ℕ, ◌≡◌, refl, ap, ◌∙◌, true, [], ◌∷◌, none, some, arith}
use echo_server.Channel.{
  Events, Index, new, added, deleted, enable_reading, change, union, read_event,
}
use echo_server.Poller.{Epoll, Poller, find}
use echo_server.Poller.Registration.{Registered, next_index, apply_change-Changed}
use echo_server.Poller.Frame.{entry-added}
use echo_server.Poller.Frame.Removal.{taken_off}
use echo_server.Socket
use echo_server.Socket.{closed, listened, backlog}
use echo_server.Acceptor.{Acceptor, listen, destroy}

next_index-reading :
    (os : Epoll) (i : Index) (e : Events) → next_index os i (union e read_event) ≡ added
next_index-reading os new e = refl
next_index-reading os added e = ground arith
next_index-reading os deleted e = refl

module _ (os : Epoll) where
  open os use {entry}

  -- With a registered channel and a `listen` that the system grants, the acceptor listens, the
  -- program does not abort, and the kernel reports what can be read from the socket to the
  -- channel.
  pub listen-Registered :
      (p : ℕ) (a : Acceptor) (r : Poller os)
      → Registered os p r
      → (s : Poller os) × (listen os true p a r
          ≡ some (record a { listening = true }, listened a.fd backlog ∷ [], s))
        × Registered os p s
        × (entry s.interest (r.store p).fd ≡ some (union (r.store p).events read_event, p))
  unfolding listen Socket.listen change
  listen-Registered p a r m =
      let (s, done, c) = apply_change-Changed os enable_reading p r m in
      let on = c.index_is ∙ next_index-reading os (r.store p).index (r.store p).events in
      (
        s,
        rw (done, listen) refl,
        c.registered,
        rw (← c.fd_same) (
            entry-added os p s (s.store p).index on c.registered
            ∙ ap (λ e. some (e, p)) c.events_are),
      )

  -- Whatever state the registered channel is in, listening or never used, the destructor does not
  -- abort, leaves neither in the map nor in the kernel anything of the channel's descriptor, and
  -- closes the acceptor's socket, once.
  pub destroy-Registered :
      (p : ℕ) (a : Acceptor) (r : Poller os)
      → Registered os p r
      → (t : Poller os) × (destroy os p a r ≡ some (closed a.fd ∷ [], t))
        × (find (r.store p).fd t.channels ≡ none)
        × (entry t.interest (r.store p).fd ≡ none)
        × ((t.store p).index ≡ new)
  unfolding destroy Socket.destroy
  destroy-Registered p a r m =
      let (s, t, done, removed, off) = taken_off os p r m in
      (t, rw (done, destroy) (rw (removed) refl), off.unmapped, off.unwatched, off.is_new)
