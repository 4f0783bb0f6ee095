-- ===== src/EchoServer.antt =====
-- src/main.cc: the message callback of the echo server, which runs in the connection's own loop.
-- `Server` has the constructor, and what `main` makes and starts.
mod Examples
mod Server
mod Stream
mod Callbacks
use echo_server.Prelude.{
  ℕ, ◌+◌, ◌^◌, ◌<◌, ◌≤◌, ◌≡◌, refl, sym, ap, ◌∙◌, Bool, true, false, List, [], ◌∷◌, ◌++◌, arith,
  ltb, ltb→lt, if◌then◌else◌, length, Bool-cases, inl, inr, lt→ltb, length-pos, ◌≢◌,
}
use echo_server.Buffer
use echo_server.Buffer.{Buffer, moved, Reply, readable_bytes, writable_bytes, read_fd}
use echo_server.Buffer.Invariant.{IsValid}
use echo_server.Buffer.Refine.{contents, retrieve_all_as_string_lem}
use echo_server.Buffer.Transfer.{kept, contents-read_fd}
use echo_server.TcpConnection.{
  TcpConnection, Run, SendReply, sent, State, connected, send, send_in_loop, handle_read, written,
  direct, Effect,
}
use echo_server.TcpConnection.Lifecycle.{Advances, stage, send_in_loop-Advances}
use echo_server.TcpConnection.Stream.{send-connected}
use echo_server.TcpConnection.Synced.{IsSynced, send_in_loop-IsSynced}

-- `onMessage`: the string `http_resp` is built and not used. `address` is that of `msg`.
unfoldable pub on_message : (List ℕ → SendReply) → ℕ → TcpConnection → Run
unfolding Buffer.retrieve_all_as_string
on_message kernel address c =
    let (msg, rest) = Buffer.retrieve_all_as_string c.input in
    send kernel true address msg (record c { input = rest })

-- The callback keeps the connection's record of its events, and never moves it back in its life.
pub on_message-IsSynced :
    (kernel : List ℕ → SendReply) (address : ℕ) → IsSynced (on_message kernel address)
unfolding on_message send
on_message-IsSynced kernel address c =
    let (msg, rest) = Buffer.retrieve_all_as_string c.input in
    ground (arith, send_in_loop-IsSynced kernel msg (record c { input = rest }))

pub on_message-Advances :
    (kernel : List ℕ → SendReply) (address : ℕ) → Advances (on_message kernel address)
unfolding on_message send
on_message-Advances kernel address c =
    let (msg, rest) = Buffer.retrieve_all_as_string c.input in
    ground (arith, send_in_loop-Advances kernel msg (record c { input = rest }))

count-read_fd :
    (b : Buffer) (bytes : List ℕ) → (read_fd b (moved bytes)).1 ≡ Buffer.count (length bytes)
unfolding read_fd
count-read_fd b bytes = ground arith

handle_read-moved :
    (f : TcpConnection → Run) (bytes : List ℕ) (c : TcpConnection)
    → bytes ≢ []
    → handle_read f (moved bytes) c ≡ f (record c { input = (read_fd c.input (moved bytes)).0 })
unfolding handle_read
handle_read-moved f bytes c ne =
    rw (count-read_fd c.input bytes, handle_read)
      (rw (lt→ltb 0 (length bytes) (length-pos bytes ne)) refl)

-- A read of some bytes on an open connection with a valid input buffer, vector and data being
-- below 2^63 bytes, hands to `sendInLoop` what was waiting in the input buffer and what the read
-- made readable, in order, and leaves the input buffer empty.
pub handle_read-on_message :
    (kernel : List ℕ → SendReply) (address : ℕ) (bytes : List ℕ) (c : TcpConnection)
    → c.state ≡ connected
    → IsValid c.input
    → length c.input.storage + length bytes < 2 ^ 63
    → bytes ≢ []
    → let rest = (Buffer.retrieve_all_as_string (read_fd c.input (moved bytes)).0).1 in
      (handle_read (on_message kernel address) (moved bytes) c
        ≡ send_in_loop kernel (contents c.input ++ kept c.input bytes) (record c { input = rest }))
      × (contents rest ≡ [])
unfolding on_message
handle_read-on_message kernel address bytes c up v small ne =
    let b = (read_fd c.input (moved bytes)).0 in
    let d : TcpConnection = record c { input = (Buffer.retrieve_all_as_string b).1 } in
    (
      handle_read-moved (on_message kernel address) bytes c ne
          ∙ send-connected kernel address _ d up
          ∙ ap (λ xs. send_in_loop kernel xs d) (contents-read_fd bytes v small),
      (retrieve_all_as_string_lem b).1,
    )
