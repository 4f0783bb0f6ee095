-- ===== src/AsyncLogging.antt =====
-- include/AsyncLogging.h and log/AsyncLogging.cc: the log lines on their way to the log's thread.
-- Lines go to the current buffer, full buffers to a list, and each round of the thread takes them
-- all. Both hold the mutex, but while the thread waits, so that calls of `append` and rounds of the
-- thread come one after another. The size of a buffer, `largeBufferSize`, is an argument. What a
-- round hands to the file is added to `output`; the way into the file is in `LogPipeline`.
pub mod Held
pub mod Delivery
pub mod Life
mod Examples
use echo_server.Prelude.{
  ℕ, Bool, true, false, List, [], ◌∷◌, ◌++◌, Option, none, some, if◌then◌else◌, ltb, take, length,
}
use echo_server.FixedBuffer
use echo_server.FixedBuffer.{FixedBuffer, valid}
use echo_server.FixedBuffer.Contents.{contents}

-- `currentBuffer_` is never null between two calls, `nextBuffer_` may be.
pub record AsyncLogging : Type 0 where
  pub running : Bool
  pub current : FixedBuffer
  pub next : Option FixedBuffer
  pub buffers : List FixedBuffer

-- The local variables of `threadFunc` at the test of `running_`, where both buffers are there.
pub record Backend : Type 0 where
  pub new_buffer1 : FixedBuffer
  pub new_buffer2 : FixedBuffer
  pub output : List ℕ

-- The constructor.
unfoldable pub init : ℕ → AsyncLogging
init size = record {
  running = false;
  current = FixedBuffer.init size;
  next = some (FixedBuffer.init size);
  buffers = [];
}

-- The first lines of `threadFunc`.
unfoldable pub init_backend : ℕ → Backend
init_backend size = record {
  new_buffer1 = FixedBuffer.init size;
  new_buffer2 = FixedBuffer.init size;
  output = [];
}

unfoldable pub start : AsyncLogging → AsyncLogging
start l = record l { running = true }

unfoldable pub stop : AsyncLogging → AsyncLogging
stop l = record l { running = false }

-- The destructor.
unfoldable pub destroy : AsyncLogging → AsyncLogging
unfolding stop
destroy l = if l.running then stop l else l

-- The spare buffer, or a new one.
unfoldable pub spare : ℕ → Option FixedBuffer → FixedBuffer
spare size (some b) = b
spare size none = FixedBuffer.init size

unfoldable pub append : ℕ → List ℕ → AsyncLogging → AsyncLogging
unfolding spare
append size line l =
    if valid size l.current (length line)
    then record l { current = FixedBuffer.append size l.current line }
    else record l {
      current = FixedBuffer.append size (spare size l.next) line;
      next = none;
      buffers = l.buffers ++ l.current ∷ [];
    }

-- What `output.append(buffer->data(), buffer->length())` is given, for each buffer in turn.
unfoldable pub bytes_of : List FixedBuffer → List ℕ
bytes_of [] = []
bytes_of (b ∷ bs) = contents b ++ bytes_of bs

-- `back()` and `pop_back()`; on an empty vector they are undefined.
unfoldable pub pop_back : List FixedBuffer → Option (FixedBuffer × List FixedBuffer)
pop_back [] = none
pop_back (b ∷ bs) = elim (pop_back bs) [
  | none ↦ some (b, [])
  | some (last, rest) ↦ some (last, b ∷ rest)
]

-- A buffer that the thread has handed over is replaced by one that was written.
unfoldable pub refill :
    Option FixedBuffer → List FixedBuffer → Option (FixedBuffer × List FixedBuffer)
unfolding pop_back
refill (some b) bs = some (b, bs)
refill none bs = elim (pop_back bs) [
  | none ↦ none
  | some (last, rest) ↦ some (FixedBuffer.reset last, rest)
]

-- `nextBuffer_` and `newBuffer2` behind the lines that fill the first from the second.
unfoldable pub hand_over : Option FixedBuffer → FixedBuffer → FixedBuffer × Option FixedBuffer
hand_over none new2 = (new2, none)
hand_over (some n) new2 = (n, some new2)

-- A round of the thread, from the point where it stops waiting.
unfoldable pub round : AsyncLogging → Backend → Option (AsyncLogging × Backend)
unfolding refill hand_over bytes_of
round l b =
    let to_write = l.buffers ++ l.current ∷ [] in
    let (next, new2) = hand_over l.next b.new_buffer2 in
    let kept = if ltb 2 (length to_write) then take 2 to_write else to_write in
    elim (refill none kept) [
      | none ↦ none
      | some (first, rest) ↦ elim (refill new2 rest) [
        | none ↦ none
        | some (second, left) ↦ some (
          record l { current = b.new_buffer1; next = some next; buffers = [] },
          record {
            new_buffer1 = first;
            new_buffer2 = second;
            output = b.output ++ bytes_of to_write;
          },
        )
      ]
    ]
