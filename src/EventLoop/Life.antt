-- ===== src/EventLoop/Life.antt =====
-- The constructor and the destructor of src/EventLoop.cc, with those of src/EPollPoller.cc, and
-- `t_loopInThisThread`. A loop and its wakeup channel are addresses. What the system answers is an
-- argument; `LOG_FATAL` aborts the program, and is `none`.
pub mod Made
mod Examples
use echo_server.Prelude.{ℕ, Option, none, some, List, [], ◌∷◌, ◌==◌, if◌then◌else◌}
use echo_server.Channel
use echo_server.Channel.{Channel, on_read, enable_reading, disable_all}
use echo_server.Poller.{Epoll, Poller, put, init_event_list_size, apply_change, remove_channel}
use echo_server.EventLoop
use echo_server.EventLoop.{EventLoop}

-- `close(fd)`.
pub data Call : Type 0 where
  closed : ℕ → Call

-- `t_loopInThisThread` of each thread.
abbrev pub Threads : Type 0
Threads = ℕ → Option ℕ

abbrev pub set_thread : ℕ → Option ℕ → Threads → Threads
set_thread tid loop threads t = if tid == t then loop else threads t

-- `epoll_create` and `eventfd`: a descriptor, or an error.
unfoldable pub create_epoll : Option ℕ → Option ℕ
create_epoll reply = reply

unfoldable pub create_eventfd : Option ℕ → Option ℕ
create_eventfd reply = reply

module _ (os : Epoll) (F : Type 0) where
  open os use {State}

  pub record Loop : Type 0 where
    pub thread_id : ℕ
    pub epfd : ℕ
    pub wakeup_fd : ℕ
    pub wakeup_channel : ℕ
    pub state : EventLoop F
    pub poller : Poller os

  -- The poller that `newDefaultPoller` makes, on a new epoll instance.
  unfoldable pub new_default_poller : (ℕ → Channel) → State → Poller os
  new_default_poller store fresh = record {
    store = store;
    channels = [];
    interest = fresh;
    list_size = init_event_list_size;
  }

  -- The wakeup channel as the constructor leaves it before `enableReading`.
  unfoldable pub wakeup_channel_of : ℕ → Channel
  unfolding Channel.set_callback Channel.init
  wakeup_channel_of wakeup_fd = Channel.set_callback on_read (Channel.init wakeup_fd)

  -- `this` is the loop's address, `channel` that of its new wakeup channel.
  unfoldable pub construct :
      Option ℕ → Option ℕ → State → (ℕ → Channel) → ℕ → ℕ → ℕ → Threads → Option (Loop × Threads)
  unfolding create_epoll create_eventfd
  construct epoll_reply eventfd_reply fresh store tid this channel threads =
      elim (create_epoll epoll_reply) [
        | none ↦ none
        | some epfd ↦ elim (create_eventfd eventfd_reply) [
          | none ↦ none
          | some wakeup_fd ↦ elim (threads tid) [
            | some other ↦ none
            | none ↦
                let poller =
                  new_default_poller (put store channel (wakeup_channel_of wakeup_fd)) fresh in
                elim (apply_change os enable_reading channel poller) [
                  | none ↦ none
                  | some s ↦ some (
                    record {
                      thread_id = tid;
                      epfd = epfd;
                      wakeup_fd = wakeup_fd;
                      wakeup_channel = channel;
                      state = EventLoop.init F;
                      poller = s;
                    },
                    set_thread tid (some this) threads,
                  )
                ]
          ]
        ]
      ]

  -- The destructor, called in thread `tid`, and then that of the member `poller_`.
  unfoldable pub destroy : ℕ → Loop → Threads → Option (List Call × Poller os × Threads)
  destroy tid l threads = elim (apply_change os disable_all l.wakeup_channel l.poller) [
    | none ↦ none
    | some s ↦ elim (remove_channel os l.wakeup_channel s) [
      | none ↦ none
      | some t ↦ some (closed l.wakeup_fd ∷ closed l.epfd ∷ [], t, set_thread tid none threads)
    ]
  ]
