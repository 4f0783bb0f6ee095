-- ===== src/TcpConnection.antt =====
-- include/TcpConnection.h and src/TcpConnection.cc: one connection, as its handlers see it. A
-- handler returns the new state and the calls that it makes, in order: those of the channel, of
-- the loop, of the socket and of the user's callbacks. What the kernel answers is an argument. Log
-- lines are left out, and so are the two empty functions `sendFile` and `sendFileInLoop`.
pub mod Stream
pub mod Interest
pub mod Lifecycle
pub mod Synced
pub mod Wiring
pub mod Neighbours
pub mod Examples
use echo_server.Prelude.{
  ℕ, ◌*◌, Bool, true, false, not, ◌&&◌, ◌||◌, List, [], ◌∷◌, ◌++◌, if◌then◌else◌, ltb, leb, ◌==◌,
  length, drop, add_size, sub_size,
}
use echo_server.Buffer
use echo_server.Buffer.{
  Buffer, Reply, moved, failed, Outcome, count, error, readable_bytes, read_fd, write_fd, offered,
  initial_size,
}
use echo_server.Channel
use echo_server.Channel.{
  Channel, Change, enable_reading, enable_writing, disable_writing, disable_all, change, is_writing,
  Callback, on_close, on_error, on_read, on_write,
}

-- `StateE`.
pub data State : Type 0 where
  connecting connected disconnecting disconnected : State

-- What is bound into a functor for the loop. `read_member` is the functor of `sendInLoop`, which
-- binds the address of the member `writeCompleteCallback_`: to call it is to read the member.
-- `send_raw` holds a pointer to the bytes and their number.
pub data Task : Type 0 where
  write_complete read_member shutdown_task : Task
  high_water : ℕ → Task
  send_raw : ℕ → ℕ → Task

pub data Effect : Type 0 where
  changed : Change → Effect
  unregistered : Effect
  connection_callback : State → Effect
  close_callback : Effect
  queued : Task → Effect
  written : List ℕ → Effect
  shutdown_write : Effect

pub record TcpConnection : Type 0 where
  pub state : State
  pub channel : Channel
  pub input : Buffer
  pub output : Buffer
  pub high_water_mark : ℕ
  pub has_write_complete : Bool
  pub has_high_water : Bool

abbrev pub Run : Type 0
Run = TcpConnection × List Effect

-- One handler after another.
infixl 5 ◌then_run◌
abbrev pub ◌then_run◌ : Run → (TcpConnection → Run) → Run
◌then_run◌ (c, es) f = let (d, fs) = f c in (d, es ++ fs)

-- The constructor. The server sets the callbacks afterwards.
unfoldable pub init : ℕ → TcpConnection
unfolding Channel.init Channel.set_callback Buffer.init
init sockfd = record {
  state = connecting;
  channel = Channel.set_callback on_close (
      Channel.set_callback on_error
        (Channel.set_callback on_write (Channel.set_callback on_read (Channel.init sockfd))));
  input = Buffer.init initial_size;
  output = Buffer.init initial_size;
  high_water_mark = 64 * 1024 * 1024;
  has_write_complete = false;
  has_high_water = false;
}

unfoldable pub set_write_complete_callback : TcpConnection → TcpConnection
set_write_complete_callback c = record c { has_write_complete = true }

unfoldable pub set_high_water_mark_callback : ℕ → TcpConnection → TcpConnection
set_high_water_mark_callback mark c = record c { has_high_water = true; high_water_mark = mark }

-- `channel_->enableReading()` and its relatives.
abbrev pub switch : Change → TcpConnection → Run
switch k c =
    (record c { channel = record c.channel { events = change k c.channel.events } }, changed k ∷ [])

unfoldable pub connect_established : TcpConnection → Run
unfolding Channel.tie change
connect_established c =
    switch enable_reading (record c { state = connected; channel = Channel.tie c.channel })
    then_run λ d. (d, connection_callback d.state ∷ [])

unfoldable pub connect_destroyed : TcpConnection → Run
unfolding change
connect_destroyed c =
    elim c.state [
      | connected ↦ switch disable_all (record c { state = disconnected }) then_run λ d.
          (d, connection_callback d.state ∷ [])
      | _ ↦ (c, [])
    ]
    then_run λ d. (d, unregistered ∷ [])

unfoldable pub handle_close : TcpConnection → Run
unfolding change
handle_close c = switch disable_all (record c { state = disconnected }) then_run λ d.
    (d, connection_callback d.state ∷ close_callback ∷ [])

-- What `getsockopt` says goes to the log only.
unfoldable pub handle_error : TcpConnection → Run
unfolding handle_close
handle_error c = handle_close c

-- `on_message` is the user's message callback, which may use the connection.
unfoldable pub handle_read : (TcpConnection → Run) → Reply → TcpConnection → Run
unfolding handle_close handle_error
handle_read on_message reply c =
    let (b, n) = read_fd c.input reply in
    let d = record c { input = b } in
    elim n [
      | count n ↦ if ltb 0 n then on_message d else handle_close d
      | error errno ↦ handle_error d
    ]

unfoldable pub shutdown_in_loop : TcpConnection → Run
shutdown_in_loop c = (c, if not (is_writing c.channel) then shutdown_write ∷ [] else [])

abbrev pub when_set : Bool → Effect → TcpConnection → Run
when_set b e c = (c, if b then e ∷ [] else [])

unfoldable pub shutdown_if_asked : State → TcpConnection → Run
unfolding shutdown_in_loop
shutdown_if_asked disconnecting c = shutdown_in_loop c
shutdown_if_asked _ c = (c, [])

-- `handleWrite` once everything is written.
unfoldable pub drained : TcpConnection → Run
unfolding shutdown_if_asked change
drained c =
    switch disable_writing c
    then_run when_set c.has_write_complete (queued write_complete)
    then_run λ d. shutdown_if_asked d.state d

-- `handleWrite` behind `writeFd`.
unfoldable pub after_write : Outcome → TcpConnection → Run
unfolding drained
after_write (error errno) c = (c, [])
after_write (count n) c =
    let d = record c { output = Buffer.retrieve c.output n } in
    if ltb 0 n then (if readable_bytes d.output == 0 then drained d else (d, [])) else (c, [])

unfoldable pub handle_write : (List ℕ → Reply) → TcpConnection → Run
unfolding after_write
handle_write kernel c =
    if is_writing c.channel
    then ((c, written (offered c.output) ∷ []) then_run after_write (write_fd kernel c.output))
    else (c, [])

-- What `write` answers in `sendInLoop`: how many bytes it took, or one of the errors that the code
-- tells apart.
pub data Errno : Type 0 where
  would_block pipe reset other : Errno

pub data SendReply : Type 0 where
  sent : ℕ → SendReply
  refused : Errno → SendReply

abbrev pub is_fault : Errno → Bool
is_fault pipe = true
is_fault reset = true
is_fault would_block = false
is_fault other = false

-- `nwrote`, and `faultError`.
abbrev pub wrote : SendReply → ℕ
wrote (sent n) = n
wrote (refused e) = 0

abbrev pub fault : SendReply → Bool
fault (sent n) = false
fault (refused e) = is_fault e

-- The last part of `sendInLoop`: what was not written goes to the output buffer.
unfoldable pub keep_rest : List ℕ → TcpConnection → Run
unfolding change
keep_rest rest c =
    let old_len = readable_bytes c.output in
    let total = add_size old_len (length rest) in
    when_set (leb c.high_water_mark total && ltb old_len c.high_water_mark && c.has_high_water)
      (queued (high_water total)) c
    then_run λ d.
        let e = record d { output = Buffer.append d.output rest } in
        if not (is_writing e.channel) then switch enable_writing e else (e, [])

-- Nothing waits to be written, so `sendInLoop` calls `write` itself.
abbrev pub direct : TcpConnection → Bool
direct c = not (is_writing c.channel) && readable_bytes c.output == 0

abbrev pub refusal : SendReply → Bool
refusal (sent n) = false
refusal (refused e) = true

-- The state is looked at for the log only.
unfoldable pub send_in_loop : (List ℕ → SendReply) → List ℕ → TcpConnection → Run
unfolding keep_rest
send_in_loop kernel bytes c =
    let reply = if direct c then kernel bytes else sent 0 in
    let remaining = sub_size (length bytes) (wrote reply) in
    (c, if direct c then written bytes ∷ [] else [])
    then_run when_set (direct c && not (refusal reply) && remaining == 0 && c.has_write_complete)
        (queued read_member)
    then_run λ d.
        if not (fault reply) && ltb 0 remaining
        then keep_rest (drop (wrote reply) bytes) d
        else (d, [])

-- `address` is that of the string's characters.
send_when : State → (List ℕ → SendReply) → Bool → ℕ → List ℕ → TcpConnection → Run
unfolding send_in_loop
send_when connected kernel in_loop address bytes c =
    if in_loop
    then send_in_loop kernel bytes c
    else (c, queued (send_raw address (length bytes)) ∷ [])
send_when _ kernel in_loop address bytes c = (c, [])

unfoldable pub send : (List ℕ → SendReply) → Bool → ℕ → List ℕ → TcpConnection → Run
unfolding send_when
send kernel in_loop address bytes c = send_when c.state kernel in_loop address bytes c

unfoldable pub shutdown : TcpConnection → Run
shutdown c = elim c.state [
  | connected ↦ (record c { state = disconnecting }, queued shutdown_task ∷ [])
  | _ ↦ (c, [])
]

-- What the channel's callbacks are bound to.
unfoldable pub call :
    (TcpConnection → Run) → Reply → (List ℕ → Reply) → Callback → TcpConnection → Run
unfolding handle_close handle_error handle_read handle_write
call on_message reply kernel on_close c = handle_close c
call on_message reply kernel on_error c = handle_error c
call on_message reply kernel on_read c = handle_read on_message reply c
call on_message reply kernel on_write c = handle_write kernel c

unfoldable pub call_all :
    (TcpConnection → Run) → Reply → (List ℕ → Reply) → List Callback → TcpConnection → Run
unfolding call
call_all on_message reply kernel [] c = (c, [])
call_all on_message reply kernel (k ∷ ks) c =
    call on_message reply kernel k c then_run call_all on_message reply kernel ks

-- A connection whose channel is active: `handleEvent`, while the connection lives.
unfoldable pub dispatch : (TcpConnection → Run) → Reply → (List ℕ → Reply) → TcpConnection → Run
unfolding call_all Channel.handle_event
dispatch on_message reply kernel c =
    call_all on_message reply kernel (Channel.handle_event c.channel true) c
