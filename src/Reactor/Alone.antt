-- ===== src/Reactor/Alone.antt =====
-- One connection by itself: only what is reported for it, what the kernel answers it and the
-- functors that are queued for it happen to it, in the order of the rounds of src/EventLoop.cc.
mod Equal
mod Examples
use echo_server.Prelude.{ℕ, Option, none, some, List, [], ◌∷◌, ◌==◌, if◌then◌else◌}
use echo_server.Channel.{Events}
use echo_server.Poller.Active.{last_report, pointers}
use echo_server.TcpConnection.{TcpConnection, Run, dispatch}
use echo_server.Reactor.{Job, do_job, Round}

-- The connection, and the events that were last saved in its channel.
abbrev pub Alone : Type 0
Alone = TcpConnection × Events

unfoldable pub turn : (TcpConnection → Run) → Alone → Alone
turn f (c, saved) = ((f (record c { channel = record c.channel { revents = saved } })).0, saved)

unfoldable pub active_alone : ℕ → (TcpConnection → Run) → List ℕ → Alone → Alone
unfolding turn
active_alone p f [] x = x
active_alone p f (q ∷ qs) x = active_alone p f qs (if q == p then turn f x else x)

unfoldable pub jobs_alone : ℕ → List (ℕ × Job) → Alone → Alone
unfolding turn
jobs_alone p [] x = x
jobs_alone p ((q, j) ∷ js) x = jobs_alone p js (if q == p then turn (do_job j) x else x)

-- What `epoll_wait` filled in.
abbrev pub entries : Option (List (ℕ × Events)) → List (ℕ × Events)
entries none = []
entries (some es) = es

unfoldable pub round_alone : (ℕ → TcpConnection → Run) → ℕ → Round → Alone → Alone
unfolding active_alone jobs_alone
round_alone on_message p w (c, saved) =
    let f = dispatch (on_message p) (w.reads p) (w.writes p) in
    jobs_alone p w.jobs
      (active_alone p f (pointers (entries w.report)) (c, last_report p (entries w.report) saved))

unfoldable pub loop_alone : (ℕ → TcpConnection → Run) → ℕ → List Round → Alone → Alone
unfolding round_alone
loop_alone on_message p [] x = x
loop_alone on_message p (w ∷ ws) x = loop_alone on_message p ws (round_alone on_message p w x)
