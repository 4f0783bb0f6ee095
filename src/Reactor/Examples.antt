-- ===== src/Reactor/Examples.antt =====
-- An echo server's loop: a connection comes, hangs up and is destroyed, and another one takes over
-- its descriptor and its address.
use echo_server.Prelude.{ℕ, ◌≡◌, refl, true, false, none, some, List, [], ◌∷◌, Option, arith}
use echo_server.Buffer.{moved}
use echo_server.Channel.{none_event, read_event, save_revents}
use echo_server.Poller.{find, poll, apply_change, remove_channel}
use echo_server.TcpConnection.Wiring.{perform, perform_all}
use echo_server.Poller.Table.{table}
use echo_server.TcpConnection
use echo_server.TcpConnection.{TcpConnection, Run, sent}
use echo_server.TcpConnection.Synced.{IsSynced}
use echo_server.EchoServer.{on_message, on_message-IsSynced}
use echo_server.Reactor.{Reactor, Round, Job, establish, destroy, round, report_events}
use echo_server.Reactor.Served.{Served}
use echo_server.Reactor.Serving.{all_live}
use echo_server.Reactor.Turnover.{
  World, GenuineReport, create, release, Reach, started, stepped, created, released, turned,
}
use echo_server.Reactor.Turnover.Reached.{Reach-proceeds}

abbrev pub echo : ℕ → TcpConnection → Run
echo p = on_message (λ bytes. sent 1) p

abbrev quiet : List (ℕ × Job) → Round
quiet js = record { report = none; reads = λ p. moved (7 ∷ 8 ∷ []); writes = λ p. moved; jobs = js }

abbrev nothing : World table
nothing = record {
  live = λ p. false;
  conns = λ p. TcpConnection.init 0;
  poller = record {
    store = λ p. (TcpConnection.init 0).channel;
    channels = [];
    interest = λ k. none;
    list_size = 16;
  };
}

abbrev or_else : Reactor table echo → Option (Reactor table echo) → Reactor table echo
or_else x none = x
or_else x (some y) = y

-- The world behind a round.
unfoldable pub after : Round → World table → World table
unfolding round
after w x =
    let y = or_else (x.conns, x.poller) (round table echo w (x.conns, x.poller)) in
    record x { conns = y.0; poller = y.1 }

abbrev establishing : Round
establishing = quiet ((0, establish) ∷ [])

abbrev pub closing : Round
closing = record (quiet ((0, destroy) ∷ [])) {
  report = some ((0, record none_event { hangup = true }) ∷ []);
}

abbrev reading : Round
reading = record (quiet []) { report = some ((0, read_event) ∷ []) }

abbrev made : World table
made = create table 0 3 nothing

abbrev pub established : World table
established = after establishing made

abbrev closed : World table
closed = after closing established

abbrev left : World table
left = release table 0 closed

abbrev made_again : World table
made_again = create table 0 3 left

abbrev established_again : World table
established_again = after establishing made_again

nothing-Reach : Reach table echo nothing
unfolding find
nothing-Reach = started nothing (λ p. refl) (λ k. (refl, refl))

pub established-Reach : Reach table echo established
unfolding after round find poll perform_all perform apply_change TcpConnection.init
established-Reach =
    stepped made _
      (stepped nothing _ nothing-Reach (created 0 3 nothing refl (λ q lq. ground arith)))
      (turned establishing made _ tt refl refl)

left-Reach : Reach table echo left
unfolding after round find poll perform_all perform apply_change TcpConnection.init
    TcpConnection.dispatch report_events save_revents remove_channel
left-Reach =
    stepped closed _
      (stepped established _ established-Reach
        (turned closing established _ ((3, read_event, refl), tt) refl refl))
      (released 0 closed refl refl)

again-Reach : Reach table echo established_again
unfolding after round find poll perform_all perform apply_change TcpConnection.init
    TcpConnection.dispatch report_events save_revents remove_channel
again-Reach =
    stepped made_again _ (stepped left _ left-Reach (created 0 3 left refl (λ q lq. ground arith)))
      (turned establishing made_again _ tt refl refl)

pub echo-IsSynced : (p : ℕ) → IsSynced (echo p)
echo-IsSynced p = on_message-IsSynced (λ bytes. sent 1) p

reading-Genuine : GenuineReport table reading.report established_again.poller.interest
unfolding after round find poll perform_all perform apply_change TcpConnection.init
    TcpConnection.dispatch report_events save_revents remove_channel
reading-Genuine = ((3, read_event, refl), tt)

Reach-proceeds_example :
    (all_live established_again.live (poll table reading.report established_again.poller).0 ≡ true)
    × ((y : Reactor table echo) × (round table echo reading
            (established_again.conns, established_again.poller)
          ≡ some y)
        × Served table established_again.live y.0 y.1)
Reach-proceeds_example =
    Reach-proceeds table echo echo-IsSynced established_again reading again-Reach reading-Genuine
      refl
