-- ===== src/TcpConnection/Stream.antt =====
-- What goes out: the bytes of `send` reach the socket or the output buffer, in order.
use echo_server.Prelude.{
  ℕ, ◌+◌, ◌^◌, ◌<◌, ◌≤◌, ◌≡◌, inl, inr, refl, sym, ap, ◌∙◌, true, false, not, ◌&&◌, List, [], ◌∷◌,
  ◌++◌, append-nil, arith, if◌then◌else◌, ltb, ltb-false→le, Bool-cases, length, take, drop,
  take-append-drop, length-drop, drop-all, sub_size, length-eq-zero,
}
use echo_server.Buffer
use echo_server.Buffer.{Buffer, readable_bytes}
use echo_server.Buffer.Invariant.{IsValid}
use echo_server.Buffer.Refine.{contents, contents-append, length-contents}
use echo_server.TcpConnection.{
  TcpConnection, Run, SendReply, sent, refused, wrote, fault, refusal, direct, keep_rest,
  send_in_loop, send, send_when, written, State, connected, disconnected,
}

-- The end of `sendInLoop` appends what is left to the output buffer.
pub output-keep_rest :
    (rest : List ℕ) (c : TcpConnection) → (keep_rest rest c).0.output ≡ Buffer.append c.output rest
unfolding keep_rest
output-keep_rest rest c = ground arith

pub output-send_in_loop :
    (kernel : List ℕ → SendReply) (bytes : List ℕ) (c : TcpConnection)
    → let reply = if direct c then kernel bytes else sent 0 in
      (send_in_loop kernel bytes c).0.output ≡ (
        if not (fault reply) && ltb 0 (sub_size (length bytes) (wrote reply))
        then Buffer.append c.output (drop (wrote reply) bytes)
        else c.output)
unfolding send_in_loop
output-send_in_loop kernel bytes c = ground arith

-- The rest of a write goes behind what the buffer holds; where nothing is left, nothing changes.
grow :
    (b : Buffer) (bytes : List ℕ) (n : ℕ)
    → IsValid b
    → length b.storage + length bytes < 2 ^ 63
    → n ≤ length bytes
    → contents (if ltb 0 (sub_size (length bytes) n) then Buffer.append b (drop n bytes) else b)
      ≡ contents b ++ drop n bytes
grow b bytes n v h le = elim (Bool-cases (ltb 0 (sub_size (length bytes) n))) [
  | inl some_left ↦
      rw some_left (contents-append (drop n bytes) v (omega (arith, length-drop n bytes)))
  | inr none_left ↦
      rw (none_left, drop-all n bytes (omega (arith, ltb-false→le _ _ none_left)))
        (sym (append-nil (contents b)))
]

direct-empty : (c : TcpConnection) → IsValid c.output → direct c ≡ true → contents c.output ≡ []
direct-empty c v h = length-eq-zero (contents c.output) (length-contents v ∙ ground arith)

-- What `sendInLoop` gets into the socket at once.
abbrev pub accepted : (List ℕ → SendReply) → List ℕ → TcpConnection → List ℕ
accepted kernel bytes c = if direct c then take (wrote (kernel bytes)) bytes else []

-- Unless `write` says that the peer is gone, `sendInLoop` on a valid output buffer, with vector
-- and data below 2^63 bytes, loses no byte and lets none overtake another, if the socket takes no
-- more than it is offered: what it took, followed by the output buffer, is what the buffer held,
-- followed by the bytes to send.
pub send_in_loop_stream :
    (kernel : List ℕ → SendReply) (bytes : List ℕ) (c : TcpConnection)
    → IsValid c.output
    → length c.output.storage + length bytes < 2 ^ 63
    → wrote (kernel bytes) ≤ length bytes
    → fault (kernel bytes) ≡ false
    → accepted kernel bytes c ++ contents (send_in_loop kernel bytes c).0.output
      ≡ contents c.output ++ bytes
send_in_loop_stream kernel bytes c v h le ok = elim (Bool-cases (direct c)) [
  | inl now ↦
      rw (output-send_in_loop kernel bytes c, now, ok)
        (rw (grow c.output bytes (wrote (kernel bytes)) v h le, direct-empty c v now)
          (take-append-drop (wrote (kernel bytes)) bytes))
  | inr later ↦
      rw (output-send_in_loop kernel bytes c, later) (grow c.output bytes 0 v h (omega arith))
]

refusal-fault : (r : SendReply) → fault r ≡ true → refusal r ≡ true
refusal-fault (sent n) h = cc
refusal-fault (refused e) h = refl

-- Where the peer is gone the bytes are dropped: the connection stays as it was, nothing is queued
-- and the channel is left alone.
pub send_in_loop-fault :
    (kernel : List ℕ → SendReply) (bytes : List ℕ) (c : TcpConnection)
    → direct c ≡ true
    → fault (kernel bytes) ≡ true
    → send_in_loop kernel bytes c ≡ (c, written bytes ∷ [])
unfolding send_in_loop
send_in_loop-fault kernel bytes c now gone = rw (now, gone, refusal-fault (kernel bytes) gone)

with_state : State → Run → Run
with_state x (d, es) = (record d { state = x }, es)

keep_rest-with_state :
    (x : State) (rest : List ℕ) (c : TcpConnection)
    → keep_rest rest (record c { state = x }) ≡ with_state x (keep_rest rest c)
unfolding keep_rest with_state
keep_rest-with_state x rest c = ground arith

-- `sendInLoop` tests the state for its log line only: on a connection that is closed it makes the
-- same calls, and keeps the same bytes, as in any other state.
pub send_in_loop_disconnected :
    (kernel : List ℕ → SendReply) (bytes : List ℕ) (c : TcpConnection)
    → send_in_loop kernel bytes (record c { state = disconnected }) ≡ (
      record (send_in_loop kernel bytes c).0 { state = disconnected },
      (send_in_loop kernel bytes c).1,
    )
unfolding send_in_loop with_state
send_in_loop_disconnected kernel bytes c =
    let reply = if direct c then kernel bytes else sent 0 in
    ground (arith, keep_rest-with_state disconnected (drop (wrote reply) bytes) c)

-- From another thread `send` hands over a pointer and a length: two strings of one length at one
-- address give the same calls, so the bytes are not part of what is queued.
pub send_from_outside :
    (kernel : List ℕ → SendReply) (address : ℕ) (xs ys : List ℕ) (c : TcpConnection)
    → length xs ≡ length ys
    → send kernel false address xs c ≡ send kernel false address ys c
unfolding send
send_from_outside kernel address xs ys c h = ground arith

-- From the loop's own thread `send` on an open connection is `sendInLoop`.
pub send-connected :
    (kernel : List ℕ → SendReply) (address : ℕ) (bytes : List ℕ) (c : TcpConnection)
    → c.state ≡ connected
    → send kernel true address bytes c ≡ send_in_loop kernel bytes c
unfolding send
send-connected kernel address bytes c h = ap (λ s. send_when s kernel true address bytes c) h
