-- ===== src/TcpConnection/Interest.antt =====
-- A connection that has bytes to write listens for the socket to take them, so they do go out, and
-- the writing side is shut down only when nothing waits.
use echo_server.Prelude.{
  ℕ_discrete, ℕ, refl, ◌+◌, ◌^◌, ◌<◌, ◌≡◌, ◌≢◌, ◌⊎◌, inl, inr, true, false, not, ◌&&◌, List, [],
  ◌∷◌, arith, if◌then◌else◌, ltb, ◌==◌, Bool-cases, length, drop, length-drop, sub_size,
}
use echo_server.Buffer
use echo_server.Buffer.{Buffer, Reply, readable_bytes, count, error, write_fd, offered, Outcome}
use echo_server.Buffer.Invariant.{IsValid, append-IsValid, retrieve-IsValid}
use echo_server.Channel.{is_writing}
use echo_server.TcpConnection.{
  TcpConnection, Effect, SendReply, sent, wrote, fault, direct, keep_rest, send_in_loop,
  disconnecting, disconnected, shutdown_write, shutdown_in_loop, handle_write, drained, after_write,
}

pub record Inv (c : TcpConnection) : Type 0 where
  pub valid : IsValid c.output
  pub interest : c.state ≢ disconnected → readable_bytes c.output ≢ 0 → is_writing c.channel ≡ true

keep_rest-Inv :
    (rest : List ℕ) (c : TcpConnection)
    → IsValid c.output
    → length c.output.storage + length rest < 2 ^ 63
    → Inv (keep_rest rest c).0
unfolding keep_rest
keep_rest-Inv rest c v h = ground (arith, append-IsValid rest v h)

-- Sending, with vector and data below 2^63 bytes, keeps the output buffer valid and the channel
-- listening for writing while the connection is up and anything is left to write.
pub send_in_loop-Inv :
    (kernel : List ℕ → SendReply) (bytes : List ℕ) (c : TcpConnection)
    → length c.output.storage + length bytes < 2 ^ 63
    → Inv c
    → Inv (send_in_loop kernel bytes c).0
unfolding send_in_loop
send_in_loop-Inv kernel bytes c h v =
    let reply = if direct c then kernel bytes else sent 0 in
    let rest = drop (wrote reply) bytes in
    elim (Bool-cases (not (fault reply) && ltb 0 (sub_size (length bytes) (wrote reply)))) [
      | inl left ↦
          rw left (keep_rest-Inv rest c v.valid (omega (arith, length-drop (wrote reply) bytes)))
      | inr nothing ↦ rw nothing v
    ]

drained-Inv :
    (c : TcpConnection) → IsValid c.output → readable_bytes c.output ≡ 0 → Inv (drained c).0
unfolding drained
drained-Inv c v e = ground arith

after_write-Inv :
    (o : Outcome) (c : TcpConnection)
    → IsValid c.output
    → is_writing c.channel ≡ true
    → Inv (after_write o c).0
unfolding after_write
after_write-Inv (error errno) c v w = record { valid = v; interest = λ a b. w }
after_write-Inv (count n) c v w =
    let d = record c { output = Buffer.retrieve c.output n } in
    let rv = retrieve-IsValid n v in
    elim (Bool-cases (ltb 0 n)) [
      | inr nothing ↦ rw nothing (record { valid = v; interest = λ a b. w })
      | inl some_bytes ↦ rw some_bytes (elim (Bool-cases (readable_bytes d.output == 0)) [
        | inl empty ↦ rw empty (drained-Inv d rv (ground arith))
        | inr more ↦ rw more (record { valid = rv; interest = λ a b. w })
      ])
    ]

-- Writing leaves the interest in writing as it was, or the output buffer is empty.
abbrev pub KeepsWriting : TcpConnection → TcpConnection → Type 0
KeepsWriting c d = (is_writing d.channel ≡ is_writing c.channel) ⊎ (readable_bytes d.output ≡ 0)

drained-empty :
    (c : TcpConnection) → readable_bytes c.output ≡ 0 → readable_bytes (drained c).0.output ≡ 0
unfolding drained
drained-empty c e = ground arith

after_write-KeepsWriting : (o : Outcome) (c : TcpConnection) → KeepsWriting c (after_write o c).0
unfolding after_write
after_write-KeepsWriting (error errno) c = inl refl
after_write-KeepsWriting (count n) c =
    let d = record c { output = Buffer.retrieve c.output n } in
    elim (Bool-cases (ltb 0 n)) [
      | inr nothing ↦ rw nothing (inl refl)
      | inl some_bytes ↦ rw some_bytes (elim (Bool-cases (readable_bytes d.output == 0)) [
        | inl empty ↦ rw empty (inr (drained-empty d (ground arith)))
        | inr more ↦ rw more (inl refl)
      ])
    ]

-- From a valid output buffer, in which bytes wait only where the channel listens for writing or the
-- connection is down, `handleWrite` keeps all this, in whatever state the connection is and whatever
-- the kernel takes. It changes the interest in writing only when it leaves the output buffer empty.
pub handle_write-Inv :
    (kernel : List ℕ → Reply) (c : TcpConnection)
    → Inv c
    → Inv (handle_write kernel c).0 × KeepsWriting c (handle_write kernel c).0
unfolding handle_write
handle_write-Inv kernel c v = elim (Bool-cases (is_writing c.channel)) [
  | inl on ↦
      let keeps = after_write-KeepsWriting (write_fd kernel c.output) c in
      rw on (after_write-Inv (write_fd kernel c.output) c v.valid on, rw on at keeps)
  | inr off ↦ rw off (v, inl off)
]

abbrev pub Occurs : Effect → List Effect → Type 0
Occurs e [] = ⊥
Occurs e (f ∷ fs) = (e ≡ f) ⊎ Occurs e fs

-- While the connection is not down and its output buffer and channel are in order,
-- `shutdownInLoop` shuts the writing side of the socket down only when nothing waits to be
-- written.
pub shutdown_in_loop_drained :
    (c : TcpConnection)
    → Inv c
    → c.state ≢ disconnected
    → Occurs shutdown_write (shutdown_in_loop c).1
    → readable_bytes c.output ≡ 0
unfolding shutdown_in_loop
shutdown_in_loop_drained c v open_still m = elim (ℕ_discrete (readable_bytes c.output) 0) [
  | yes e ↦ e
  | no ne ↦ let on = v.interest open_still ne in ground arith
]

-- `handleWrite` completes a shutdown that was asked for: when it empties the buffer of a connection
-- in state `KDisconnecting`, it stops listening for writing and shuts the writing side down.
pub handle_write_completes :
    (kernel : List ℕ → Reply) (n : ℕ) (c : TcpConnection)
    → is_writing c.channel ≡ true
    → c.state ≡ disconnecting
    → write_fd kernel c.output ≡ count n
    → 0 < n
    → readable_bytes (Buffer.retrieve c.output n) ≡ 0
    → let (d, es) = handle_write kernel c in
      Occurs shutdown_write es × (is_writing d.channel ≡ false) × (d.state ≡ disconnecting)
unfolding handle_write drained
handle_write_completes kernel n c on s e pos empty = rw (on, e, after_write) (ground arith)
