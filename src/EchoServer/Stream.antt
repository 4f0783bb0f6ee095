-- ===== src/EchoServer/Stream.antt =====
-- What a connection of the echo server writes over many reads.
use echo_server.Prelude.{
  ℕ, ◌+◌, ◌^◌, ◌<◌, ◌≡◌, ◌≢◌, refl, ap, ◌∙◌, true, List, [], ◌∷◌, ◌++◌, arith, length,
  if◌then◌else◌, Bool-cases, inl, inr, ltb, lt→ltb, length-overwrite, length-take, le→ltb-false,
  sub_size, slice, take,
}
use echo_server.Buffer
use echo_server.Buffer.{Buffer, moved, readable_bytes, writable_bytes, read_fd, cheap_prepend}
use echo_server.Buffer.Invariant.{IsValid}
use echo_server.Buffer.Refine.{contents}
use echo_server.Buffer.Transfer.{kept}
use echo_server.TcpConnection.{
  TcpConnection, Run, ◌then_run◌, Effect, written, SendReply, sent, connected, handle_read,
  send_in_loop, direct, queued, read_member,
}
use echo_server.EchoServer.{on_message, handle_read-on_message}

-- A kernel that takes all that it is given.
abbrev pub takes_all : List ℕ → SendReply
takes_all bytes = sent (length bytes)

-- Reads of these bytes, one after another.
unfoldable pub handle_reads : ℕ → List (List ℕ) → TcpConnection → Run
unfolding on_message
handle_reads address [] c = (c, [])
handle_reads address (bs ∷ bss) c =
    handle_read (on_message takes_all address) (moved bs) c then_run handle_reads address bss

-- What the connection wrote.
abbrev pub all_written : List Effect → List ℕ
all_written [] = []
all_written (written bs ∷ es) = bs ++ all_written es
all_written (_ ∷ es) = all_written es

-- An open connection whose input has been read, with `size` bytes of room in front of the end, and
-- with nothing to write.
pub record Idle (size : ℕ) (c : TcpConnection) : Type 0 where
  pub open_state : c.state ≡ connected
  pub reader : c.input.reader_index ≡ cheap_prepend
  pub writer : c.input.writer_index ≡ cheap_prepend
  pub room : length c.input.storage ≡ cheap_prepend + size
  pub ready : direct c ≡ true

-- Every read is of some bytes, and leaves room behind.
abbrev pub AllFit : ℕ → List (List ℕ) → Type 0
AllFit size [] = Unit {0}
AllFit size (bs ∷ bss) = ((bs ≢ []) × (length bs < size)) × AllFit size bss

abbrev pub joined : List (List ℕ) → List ℕ
joined [] = []
joined (bs ∷ bss) = bs ++ joined bss

send_in_loop-takes_all :
    (bytes : List ℕ) (c : TcpConnection)
    → direct c ≡ true
    → send_in_loop takes_all bytes c
      ≡ (c, written bytes ∷ (if c.has_write_complete then queued read_member ∷ [] else []))
unfolding send_in_loop
send_in_loop-takes_all bytes c h =
    let none_left : sub_size (length bytes) (length bytes) ≡ 0 = omega arith in
    rw (h, send_in_loop) (ground (arith, none_left))

-- The input buffer behind a read and the callback.
input_after : List ℕ → Buffer → Buffer
input_after bytes b = (Buffer.retrieve_all_as_string (read_fd b (moved bytes)).0).1

emptied :
    (b : Buffer)
    → (Buffer.retrieve_all_as_string b).1
      ≡ record b { reader_index = cheap_prepend; writer_index = cheap_prepend }
unfolding Buffer.retrieve_all_as_string Buffer.retrieve_as_string Buffer.retrieve
    Buffer.retrieve_all
emptied b = rw (le→ltb-false (readable_bytes b) (readable_bytes b) (omega arith)) refl

length-read_fd :
    (bytes : List ℕ) (b : Buffer)
    → IsValid b
    → ltb (length bytes) (writable_bytes b) ≡ true
    → length (read_fd b (moved bytes)).0.storage ≡ length b.storage
unfolding read_fd
length-read_fd bytes b v fits = rw fits (
    omega (
      arith,
      length-overwrite b.storage b.writer_index (take (writable_bytes b) bytes),
      v,
      length-take (writable_bytes b) bytes,
    ))

module _ (size : ℕ) (small : size < 2 ^ 61) where
  Idle-IsValid : {c : TcpConnection} → Idle size c → IsValid c.input
  Idle-IsValid w = omega (arith, w)

  Idle-fits :
      {c : TcpConnection} (bytes : List ℕ)
      → Idle size c
      → length bytes < size
      → ltb (length bytes) (writable_bytes c.input) ≡ true
  Idle-fits {c} bytes w fits = lt→ltb (length bytes) (writable_bytes c.input) (omega (arith, w))

  Idle-contents : {c : TcpConnection} → Idle size c → contents c.input ≡ []
  Idle-contents {c} w =
      let none_left : readable_bytes c.input ≡ 0 = omega (arith, w) in
      ap (λ n. slice c.input.storage c.input.reader_index n) none_left

  input_after-Idle :
      (bytes : List ℕ) (c : TcpConnection)
      → length bytes < size
      → Idle size c
      → Idle size (record c { input = input_after bytes c.input })
  unfolding input_after
  input_after-Idle bytes c fits w =
      let e = emptied (read_fd c.input (moved bytes)).0 in
      rw e (record {
        open_state = w.open_state;
        reader = refl;
        writer = refl;
        room = length-read_fd bytes c.input (Idle-IsValid w) (Idle-fits bytes w fits) ∙ w.room;
        ready = w.ready;
      })

  -- What is written in one read that fits.
  wrote_one : List ℕ → TcpConnection → List Effect
  wrote_one bytes c = written bytes ∷ (if c.has_write_complete then queued read_member ∷ [] else [])

  handle_read-Idle :
      (address : ℕ) (bytes : List ℕ) (c : TcpConnection)
      → bytes ≢ []
      → length bytes < size
      → Idle size c
      → handle_read (on_message takes_all address) (moved bytes) c
        ≡ (record c { input = input_after bytes c.input }, wrote_one bytes c)
  unfolding input_after wrote_one
  handle_read-Idle address bytes c some_bytes fits w =
      let d : TcpConnection = record c { input = input_after bytes c.input } in
      let whole : kept c.input bytes ≡ bytes = rw (Idle-fits bytes w fits) refl in
      (handle_read-on_message takes_all address bytes c w.open_state (Idle-IsValid w)
        (omega (arith, w)) some_bytes).0
      ∙ ap (λ xs. send_in_loop takes_all xs d)
          (ap (λ xs. xs ++ kept c.input bytes) (Idle-contents w) ∙ whole)
      ∙ send_in_loop-takes_all bytes d w.ready

  all_written-one :
      (bytes : List ℕ) (c : TcpConnection) (es : List Effect)
      → all_written (wrote_one bytes c ++ es) ≡ bytes ++ all_written es
  unfolding wrote_one
  all_written-one bytes c es = elim (Bool-cases c.has_write_complete) [
    | inl set ↦ rw set refl
    | inr unset ↦ rw unset refl
  ]

  -- On an open connection whose input has been read, which has `size` bytes of room, fewer than
  -- 2^61, and which has nothing to write, let reads follow each other, each of some bytes but
  -- fewer than `size`, and let the kernel take whatever is written. Then the server writes exactly
  -- the bytes that were read, in order, and the connection is again as described.
  pub handle_reads-echo :
      (address : ℕ) (bss : List (List ℕ)) (c : TcpConnection)
      → AllFit size bss
      → Idle size c
      → let (d, es) = handle_reads address bss c in (all_written es ≡ joined bss) × Idle size d
  unfolding handle_reads
  handle_reads-echo address [] c fit w = (refl, w)
  handle_reads-echo address (bs ∷ bss) c ((some_bytes, fits), fit) w =
      let d : TcpConnection = record c { input = input_after bs c.input } in
      let one = handle_read-Idle address bs c some_bytes fits w in
      let (same, idle) = handle_reads-echo address bss d fit (input_after-Idle bs c fits w) in
      rw one (all_written-one bs c (handle_reads address bss d).1 ∙ ap (◌++◌ bs) same, idle)
