-- ===== src/TcpConnection/Lifecycle.antt =====
-- The states of a connection and its close callbacks.
use echo_server.Prelude.{
  ℕ, suc, ◌≤◌, ◌≡◌, ◌⊎◌, inl, inr, refl, ap, true, false, List, [], ◌∷◌, arith, if◌then◌else◌, drop,
}
use echo_server.Buffer.{Reply, count, error, write_fd, read_fd, readable_bytes, Outcome}
use echo_server.Buffer
use echo_server.Channel.{
  Callback, on_close, on_error, on_read, on_write, meets, read_event, handle_event, Channel,
  disable_all,
}
use echo_server.TcpConnection.{
  TcpConnection, Run, ◌then_run◌, Effect, changed, unregistered, connection_callback,
  close_callback, queued, written, shutdown_write, connecting, connected, disconnecting,
  disconnected, connect_destroyed, handle_close, handle_error, handle_read, handle_write,
  after_write, drained, send_in_loop, keep_rest, SendReply, call, call_all, dispatch, wrote, sent,
  direct,
}

-- How far a connection is on its way from being set up to being closed.
abbrev pub stage : TcpConnection → ℕ
stage c = elim c.state [ connecting ↦ 0 | connected ↦ 1 | disconnecting ↦ 2 | disconnected ↦ 3 ]

abbrev pub Advances : (TcpConnection → Run) → Type 0
Advances f = (c : TcpConnection) → stage c ≤ stage (f c).0

handle_close-Advances : Advances handle_close
unfolding handle_close
handle_close-Advances c = ground arith

drained-Advances : Advances drained
unfolding drained
drained-Advances c = ground arith

after_write-Advances : (o : Outcome) → Advances (after_write o)
unfolding after_write
after_write-Advances (error e) c = omega arith
after_write-Advances (count n) c =
    ground (arith, drained-Advances (record c { output = Buffer.retrieve c.output n }))

handle_write-Advances : (kernel : List ℕ → Reply) → Advances (handle_write kernel)
unfolding handle_write
handle_write-Advances kernel c = ground (arith, after_write-Advances (write_fd kernel c.output) c)

keep_rest-Advances : (rest : List ℕ) → Advances (keep_rest rest)
unfolding keep_rest
keep_rest-Advances rest c = ground arith

pub send_in_loop-Advances :
    (kernel : List ℕ → SendReply) (bytes : List ℕ) → Advances (send_in_loop kernel bytes)
unfolding send_in_loop
send_in_loop-Advances kernel bytes c =
    let reply = if direct c then kernel bytes else sent 0 in
    ground (arith, keep_rest-Advances (drop (wrote reply) bytes) c)

handle_read-Advances :
    (on_message : TcpConnection → Run) (reply : Reply)
    → Advances on_message
    → Advances (handle_read on_message reply)
unfolding handle_read
handle_read-Advances on_message reply h c =
    let d = record c { input = (read_fd c.input reply).0 } in
    ground (arith, h d, handle_close-Advances d)

call-Advances :
    (on_message : TcpConnection → Run) (reply : Reply) (kernel : List ℕ → Reply) (k : Callback)
    → Advances on_message
    → Advances (call on_message reply kernel k)
unfolding call handle_error
call-Advances on_message reply kernel on_close h c = handle_close-Advances c
call-Advances on_message reply kernel on_error h c = handle_close-Advances c
call-Advances on_message reply kernel on_read h c = handle_read-Advances on_message reply h c
call-Advances on_message reply kernel on_write h c = handle_write-Advances kernel c

call_all-Advances :
    (on_message : TcpConnection → Run) (reply : Reply) (kernel : List ℕ → Reply)
    (ks : List Callback)
    → Advances on_message
    → Advances (call_all on_message reply kernel ks)
unfolding call_all
call_all-Advances on_message reply kernel [] h c = omega arith
call_all-Advances on_message reply kernel (k ∷ ks) h c = omega (
  arith,
  call-Advances on_message reply kernel k h c,
  call_all-Advances on_message reply kernel ks h (call on_message reply kernel k c).0,
)

-- No event moves a connection back in its life, if the message callback does not: whatever the
-- poller reports and the kernel answers, a connection that is closed stays closed.
pub dispatch-Advances :
    (on_message : TcpConnection → Run) (reply : Reply) (kernel : List ℕ → Reply)
    → Advances on_message
    → Advances (dispatch on_message reply kernel)
unfolding dispatch
dispatch-Advances on_message reply kernel h c =
    call_all-Advances on_message reply kernel (handle_event c.channel true) h c

-- How often the server is told to remove the connection.
abbrev pub closes : List Effect → ℕ
closes [] = 0
closes (close_callback ∷ es) = suc (closes es)
closes (changed k ∷ es) = closes es
closes (unregistered ∷ es) = closes es
closes (connection_callback s ∷ es) = closes es
closes (queued t ∷ es) = closes es
closes (written bs ∷ es) = closes es
closes (shutdown_write ∷ es) = closes es

dispatch-eq :
    (on_message : TcpConnection → Run) (reply : Reply) (kernel : List ℕ → Reply)
    (ks : List Callback) (c : TcpConnection)
    → handle_event c.channel true ≡ ks
    → dispatch on_message reply kernel c ≡ call_all on_message reply kernel ks c
unfolding dispatch
dispatch-eq on_message reply kernel ks c e = ap (λ k. call_all on_message reply kernel k c) e

hangup_error_calls :
    (c : Channel)
    → c.revents.hangup ≡ true
    → c.revents.error ≡ true
    → meets c.revents read_event ≡ false
    → c.has_close ≡ true
    → c.has_error ≡ true
    → (handle_event c true ≡ on_close ∷ on_error ∷ [])
      ⊎ (handle_event c true ≡ on_close ∷ on_error ∷ on_write ∷ [])
unfolding handle_event
hangup_error_calls c h e r hc he = ground arith

-- A hangup that is reported together with an error and with nothing to read (neither EPOLLIN nor
-- EPOLLPRI), whether the socket takes bytes or not, closes the connection twice, where both
-- callbacks are set: the user is told twice that it is down, the channel is switched off twice, the
-- server is told twice to remove it, and nothing else is called.
pub dispatch-closes_twice :
    (on_message : TcpConnection → Run) (reply : Reply) (kernel : List ℕ → Reply) (c : TcpConnection)
    → c.channel.revents.hangup ≡ true
    → c.channel.revents.error ≡ true
    → meets c.channel.revents read_event ≡ false
    → c.channel.has_close ≡ true
    → c.channel.has_error ≡ true
    → (dispatch on_message reply kernel c).1 ≡ (handle_close c then_run handle_close).1
      × (closes (dispatch on_message reply kernel c).1 ≡ 2)
unfolding call_all
dispatch-closes_twice on_message reply kernel c h e r hc he =
    elim (hangup_error_calls c.channel h e r hc he) [
      | inl two ↦
          rw (dispatch-eq on_message reply kernel (on_close ∷ on_error ∷ []) c two) (refl, refl)
      | inr three ↦
          rw (dispatch-eq on_message reply kernel (on_close ∷ on_error ∷ on_write ∷ []) c three)
            (refl, refl)
    ]

-- A connection that the peer closes makes, with its later destruction, exactly these calls: one
-- down callback, and one each of switching the channel off, telling the server and taking the
-- channel off.
pub close_then_destroy :
    (c : TcpConnection)
    → (handle_close c then_run connect_destroyed).1
      ≡ changed disable_all ∷ connection_callback disconnected ∷ close_callback ∷ unregistered ∷ []
unfolding handle_close connect_destroyed
close_then_destroy c = refl
