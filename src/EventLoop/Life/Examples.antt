-- ===== src/EventLoop/Life/Examples.antt =====
-- A loop in thread 7 that is made where another thread has one, and destroyed.
use echo_server.Prelude.{ℕ, ◌≡◌, ◌≢◌, ◌⊎◌, refl, Bool, none, some, [], ◌∷◌, ◌==◌, if◌then◌else◌}
use echo_server.Channel
use echo_server.Channel.{Channel, read_event, added}
use echo_server.Poller.{Poller, find}
use echo_server.Poller.Table.{table, write}
use echo_server.EventLoop
use echo_server.EventLoop.Life.{Loop, Threads, construct, destroy, closed}
use echo_server.EventLoop.Life.Made.{Ready, Refused, construct-Ready, destroy-Clean}

abbrev threads : Threads
threads t = if t == 8 then some 500 else none

abbrev store : ℕ → Channel
store p = Channel.init 0

construct-Ready_example :
    let o = construct table Bool (some 3) (some 4) (λ k. none) store 7 600 20 threads in
    Refused table Bool o 7 threads
    ⊎ ((threads 7 ≡ none)
        × (l : Loop table Bool) × (after : Threads) × (o ≡ some (l, after))
        × Ready table Bool 7 600 20 3 4 l after
        × ((t : ℕ) → 7 ≢ t → after t ≡ threads t))
construct-Ready_example =
    construct-Ready table Bool (λ k. none) store 7 600 20 3 4 threads (λ k. refl)

abbrev old : Loop table Bool
old = record {
  thread_id = 7;
  epfd = 3;
  wakeup_fd = 4;
  wakeup_channel = 20;
  state = EventLoop.init Bool;
  poller = record {
    store = λ p. record (Channel.init 4) { events = read_event; index = added };
    channels = (4, 20) ∷ [];
    interest = write 4 (some (read_event, 20)) (λ k. none);
    list_size = 16;
  };
}

destroy-Clean_example :
    (t : Poller table) × (after : Threads) × (destroy table Bool 7 old threads
      ≡ some (closed 4 ∷ closed 3 ∷ [], t, after))
    × (find 4 t.channels ≡ none)
    × (t.interest 4 ≡ none)
    × (after 7 ≡ none)
    × ((other : ℕ) → 7 ≢ other → after other ≡ threads other)
unfolding Channel.init find
destroy-Clean_example = destroy-Clean table Bool 7 old threads (refl, refl) refl
