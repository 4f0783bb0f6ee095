-- ===== src/EventLoop/Life/Made.antt =====
-- A loop from its constructor to its destructor.
use echo_server.Prelude.{
  ℕ, ◌≡◌, ◌≢◌, ◌⊎◌, refl, sym, ap, ◌∙◌, Option, none, some, [], ◌∷◌, arith, inl, inr, Option-cases,
  ==-refl,
}
use echo_server.Channel
use echo_server.Channel.{Channel, read_event, new, added, enable_reading, disable_all, change}
use echo_server.Poller.{Epoll, Poller, put, find, apply_change}
use echo_server.Poller.Registration.{Registered, apply_change-Changed}
use echo_server.Poller.Frame.{entry-added, apply_change-Framed}
use echo_server.Poller.Frame.Removal.{taken_off}
use echo_server.EventLoop
use echo_server.EventLoop.Life.{
  closed, Threads, set_thread, Loop, construct, destroy, wakeup_channel_of, new_default_poller,
}

module _ (os : Epoll) (F : Type 0) where
  open os use {State, entry}

  -- A loop that is ready to run in thread `tid`, of which the thread knows: its poller reports what
  -- wakes it up, and has no other channel.
  pub record Ready (tid this channel epfd wakeup_fd : ℕ) (l : Loop os F) (threads : Threads)
      : Type 0 where
    pub known : threads tid ≡ some this
    pub owner : l.thread_id ≡ tid
    pub poll_fd : l.epfd ≡ epfd
    pub event_fd : l.wakeup_fd ≡ wakeup_fd
    pub channel_is : l.wakeup_channel ≡ channel
    pub state_is : l.state ≡ EventLoop.init F
    pub registered : Registered os channel l.poller
    pub fd_is : (l.poller.store channel).fd ≡ wakeup_fd
    pub woken : entry l.poller.interest wakeup_fd ≡ some (read_event, channel)
    pub alone :
        (k : ℕ)
        → wakeup_fd ≢ k
        → (find k l.poller.channels ≡ none) × (entry l.poller.interest k ≡ none)

  -- `enableReading` on the wakeup channel of a new poller.
  record Watched (channel wakeup_fd : ℕ) (s : Poller os) : Type 0 where
    now_registered : Registered os channel s
    fd_same : (s.store channel).fd ≡ wakeup_fd
    reported : entry s.interest wakeup_fd ≡ some (read_event, channel)
    nothing_else :
        (k : ℕ) → wakeup_fd ≢ k → (find k s.channels ≡ none) × (entry s.interest k ≡ none)

  module _ (fresh : State) (empty : (k : ℕ) → entry fresh k ≡ none) (store : ℕ → Channel)
      (channel wakeup_fd : ℕ) where
    abbrev start : Poller os
    start = new_default_poller os F (put store channel (wakeup_channel_of os F wakeup_fd)) fresh

    start_fd : (start.store channel).fd ≡ wakeup_fd
    unfolding new_default_poller wakeup_channel_of Channel.init Channel.set_callback
    start_fd = rw (==-refl channel) refl

    start-Registered : Registered os channel start
    unfolding new_default_poller wakeup_channel_of Channel.init Channel.set_callback find
    start-Registered = rw (==-refl channel) (refl, empty wakeup_fd)

    enable-Watched :
        (s : Poller os) × (apply_change os enable_reading channel start ≡ some s)
        × Watched channel wakeup_fd s
    unfolding new_default_poller wakeup_channel_of Channel.init Channel.set_callback change find
    enable-Watched =
        let (s, done, c) = apply_change-Changed os enable_reading channel start start-Registered in
        let fd = c.fd_same ∙ start_fd in
        let on : (s.store channel).index ≡ added = c.index_is ∙ rw (==-refl channel) refl in
        let asks : (s.store channel).events ≡ read_event =
          c.events_are ∙ rw (==-refl channel) refl in
        (
          s,
          done,
          record {
            now_registered = c.registered;
            fd_same = fd;
            reported =
                ap (entry s.interest) (sym fd)
                ∙ entry-added os channel s (s.store channel).index on c.registered
                ∙ ap (λ e. some (e, channel)) asks;
            nothing_else = λ k ne.
                let h = apply_change-Framed os enable_reading channel start s done in
                let other : (start.store channel).fd ≢ k = rw start_fd ne in
                (h.mapped k other, h.watched k other ∙ empty k);
          },
        )

  -- The thread has a loop, and the constructor aborts.
  abbrev pub Refused : Option (Loop os F × Threads) → ℕ → Threads → Type 0
  Refused o tid threads = (other : ℕ) × (threads tid ≡ some other) × (o ≡ none)

  -- Let the kernel give an epoll instance with an empty interest set and an event descriptor. A
  -- thread that has a loop already gets no second one: the program aborts. In a thread without one the
  -- constructor makes a loop that is ready to run: the thread knows it, its poller has its wakeup
  -- channel registered, the kernel reports what can be read from the event descriptor to this
  -- channel, and map and interest set know no other descriptor. The other threads' loops are what
  -- they were.
  pub construct-Ready :
      (fresh : State) (store : ℕ → Channel) (tid this channel epfd wakeup_fd : ℕ)
      (threads : Threads)
      → ((k : ℕ) → entry fresh k ≡ none)
      → let o = construct os F (some epfd) (some wakeup_fd) fresh store tid this channel threads in
        Refused o tid threads
        ⊎ ((threads tid ≡ none)
            × (l : Loop os F) × (after : Threads) × (o ≡ some (l, after))
            × Ready tid this channel epfd wakeup_fd l after
            × ((t : ℕ) → tid ≢ t → after t ≡ threads t))
  unfolding construct
  construct-Ready fresh store tid this channel epfd wakeup_fd threads empty =
      elim (Option-cases (threads tid)) [
        | inr (other, taken) ↦ inl (other, taken, rw (taken) refl)
        | inl free ↦
            let (s, done, w) = enable-Watched fresh empty store channel wakeup_fd in
            inr (
              free,
              record {
                thread_id = tid;
                epfd = epfd;
                wakeup_fd = wakeup_fd;
                wakeup_channel = channel;
                state = EventLoop.init F;
                poller = s;
              },
              set_thread tid (some this) threads,
              rw (free) (rw (done) refl),
              record {
                known = rw (==-refl tid) refl;
                owner = refl;
                poll_fd = refl;
                event_fd = refl;
                channel_is = refl;
                state_is = refl;
                registered = w.now_registered;
                fd_is = w.fd_same;
                woken = w.reported;
                alone = w.nothing_else;
              },
              λ t ne. ground arith,
            )
      ]

  -- Let the wakeup channel be registered, however the loop has run. The destructor does not abort;
  -- it leaves neither in the map nor in the kernel anything of the event descriptor, closes this
  -- descriptor and that of the epoll instance, each once, and leaves the thread that calls it
  -- without a loop, so that another can be made there.
  pub destroy-Clean :
      (tid : ℕ) (l : Loop os F) (threads : Threads)
      → Registered os l.wakeup_channel l.poller
      → (l.poller.store l.wakeup_channel).fd ≡ l.wakeup_fd
      → (t : Poller os) × (after : Threads) × (destroy os F tid l threads
          ≡ some (closed l.wakeup_fd ∷ closed l.epfd ∷ [], t, after))
        × (find l.wakeup_fd t.channels ≡ none)
        × (entry t.interest l.wakeup_fd ≡ none)
        × (after tid ≡ none)
        × ((other : ℕ) → tid ≢ other → after other ≡ threads other)
  unfolding destroy
  destroy-Clean tid l threads m fd =
      let (s, t, done, removed, off) = taken_off os l.wakeup_channel l.poller m in
      (
        t,
        set_thread tid none threads,
        rw (done, destroy) (rw removed refl),
        rw (← fd) off.unmapped,
        rw (← fd) off.unwatched,
        rw (==-refl tid) refl,
        λ other ne. ground arith,
      )
