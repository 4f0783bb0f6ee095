-- ===== src/TcpConnection/Synced.antt =====
-- A connection's own record of its channel's events, and the calls that it makes of the channel.
use echo_server.Prelude.{
  ℕ, inl, inr, ◌≡◌, refl, sym, ap, ◌∙◌, true, List, [], ◌∷◌, ◌++◌, arith, if◌then◌else◌, Bool-cases,
  drop,
}
use echo_server.Buffer
use echo_server.Buffer.{Reply, Outcome, count, error, read_fd, write_fd, readable_bytes}
use echo_server.Channel.{
  Events, change, disable_writing, Callback, on_close, on_error, on_read, on_write, handle_event,
  is_writing,
}
use echo_server.TcpConnection.{
  TcpConnection, Run, ◌then_run◌, Effect, changed, unregistered, connection_callback,
  close_callback, queued, written, shutdown_write, State, connecting, disconnecting,
  connect_established, connect_destroyed, handle_close, handle_error, handle_read, handle_write,
  after_write, drained, shutdown_if_asked, switch, when_set, write_complete, keep_rest,
  send_in_loop, SendReply, sent, wrote, direct, call, call_all, dispatch,
}

-- The events that a channel asks for after a list of calls.
abbrev pub replay : List Effect → Events → Events
replay [] e = e
replay (changed k ∷ es) e = replay es (change k e)
replay (unregistered ∷ es) e = replay es e
replay (connection_callback s ∷ es) e = replay es e
replay (close_callback ∷ es) e = replay es e
replay (queued t ∷ es) e = replay es e
replay (written bs ∷ es) e = replay es e
replay (shutdown_write ∷ es) e = replay es e

pub replay-append :
    (es fs : List Effect) (e : Events) → replay (es ++ fs) e ≡ replay fs (replay es e)
replay-append [] fs e = refl
replay-append (changed k ∷ es) fs e = replay-append es fs (change k e)
replay-append (unregistered ∷ es) fs e = replay-append es fs e
replay-append (connection_callback s ∷ es) fs e = replay-append es fs e
replay-append (close_callback ∷ es) fs e = replay-append es fs e
replay-append (queued t ∷ es) fs e = replay-append es fs e
replay-append (written bs ∷ es) fs e = replay-append es fs e
replay-append (shutdown_write ∷ es) fs e = replay-append es fs e

-- A handler's own record of its channel's events is what its calls made of them.
abbrev pub IsSynced : (TcpConnection → Run) → Type 0
IsSynced f = (c : TcpConnection) → (f c).0.channel.events ≡ replay (f c).1 c.channel.events

then_run-IsSynced :
    (f g : TcpConnection → Run) → IsSynced f → IsSynced g → IsSynced (λ c. f c then_run g)
then_run-IsSynced f g hf hg c =
    hg (f c).0
    ∙ ap (replay (g (f c).0).1) (hf c)
    ∙ sym (replay-append (f c).1 (g (f c).0).1 c.channel.events)

pub connect_established-IsSynced : IsSynced connect_established
unfolding connect_established
connect_established-IsSynced c = refl

pub connect_destroyed-IsSynced : IsSynced connect_destroyed
unfolding connect_destroyed
connect_destroyed-IsSynced c = ground arith

handle_close-IsSynced : IsSynced handle_close
unfolding handle_close
handle_close-IsSynced c = refl

shutdown_if_asked-IsSynced : (s : State) → IsSynced (shutdown_if_asked s)
unfolding shutdown_if_asked
shutdown_if_asked-IsSynced disconnecting c = ground arith
shutdown_if_asked-IsSynced connecting c = refl
shutdown_if_asked-IsSynced _ c = refl

drained-IsSynced : IsSynced drained
unfolding drained
drained-IsSynced c =
    then_run-IsSynced
      (λ d. switch disable_writing d then_run when_set d.has_write_complete (queued write_complete))
      (λ d. shutdown_if_asked d.state d) (λ d. ground arith)
      (λ d. shutdown_if_asked-IsSynced d.state d) c

after_write-IsSynced : (o : Outcome) → IsSynced (after_write o)
unfolding after_write
after_write-IsSynced (error e) c = refl
after_write-IsSynced (count n) c =
    ground (arith, drained-IsSynced (record c { output = Buffer.retrieve c.output n }))

handle_write-IsSynced : (kernel : List ℕ → Reply) → IsSynced (handle_write kernel)
unfolding handle_write
handle_write-IsSynced kernel c = elim (Bool-cases (is_writing c.channel)) [
  | inl on ↦ rw on (after_write-IsSynced (write_fd kernel c.output) c)
  | inr off ↦ rw off
]

keep_rest-IsSynced : (rest : List ℕ) → IsSynced (keep_rest rest)
unfolding keep_rest
keep_rest-IsSynced rest c = ground arith

pub send_in_loop-IsSynced :
    (kernel : List ℕ → SendReply) (bytes : List ℕ) → IsSynced (send_in_loop kernel bytes)
unfolding send_in_loop
send_in_loop-IsSynced kernel bytes c =
    let reply = if direct c then kernel bytes else sent 0 in
    ground (arith, keep_rest-IsSynced (drop (wrote reply) bytes) c)

handle_read-IsSynced :
    (on_message : TcpConnection → Run) (reply : Reply)
    → IsSynced on_message
    → IsSynced (handle_read on_message reply)
unfolding handle_read handle_error
handle_read-IsSynced on_message reply h c =
    let d = record c { input = (read_fd c.input reply).0 } in
    ground (arith, h d, handle_close-IsSynced d)

call-IsSynced :
    (on_message : TcpConnection → Run) (reply : Reply) (kernel : List ℕ → Reply) (k : Callback)
    → IsSynced on_message
    → IsSynced (call on_message reply kernel k)
unfolding call handle_error
call-IsSynced on_message reply kernel on_close h c = handle_close-IsSynced c
call-IsSynced on_message reply kernel on_error h c = handle_close-IsSynced c
call-IsSynced on_message reply kernel on_read h c = handle_read-IsSynced on_message reply h c
call-IsSynced on_message reply kernel on_write h c = handle_write-IsSynced kernel c

call_all-IsSynced :
    (on_message : TcpConnection → Run) (reply : Reply) (kernel : List ℕ → Reply)
    (ks : List Callback)
    → IsSynced on_message
    → IsSynced (call_all on_message reply kernel ks)
unfolding call_all
call_all-IsSynced on_message reply kernel [] h c = refl
call_all-IsSynced on_message reply kernel (k ∷ ks) h c =
    then_run-IsSynced (call on_message reply kernel k) (call_all on_message reply kernel ks)
      (call-IsSynced on_message reply kernel k h) (call_all-IsSynced on_message reply kernel ks h) c

pub dispatch-IsSynced :
    (on_message : TcpConnection → Run) (reply : Reply) (kernel : List ℕ → Reply)
    → IsSynced on_message
    → IsSynced (dispatch on_message reply kernel)
unfolding dispatch
dispatch-IsSynced on_message reply kernel h c =
    call_all-IsSynced on_message reply kernel (handle_event c.channel true) h c
