-- ===== src/Logger/Delivery.antt =====
-- From the destructor of a line to the buffers of the log's thread.
use echo_server.Prelude.{
  ℕ, ◌^◌, ◌≤◌, ◌<◌, ◌≡◌, refl, ap, ◌∙◌, List, ◌++◌, some, arith, lt→ltb, ltb, true, length,
  if◌then◌else◌,
}
use echo_server.AsyncLogging
use echo_server.AsyncLogging.{AsyncLogging, Backend}
use echo_server.AsyncLogging.Held.{held, Inv}
use echo_server.AsyncLogging.Delivery.{append-held}
use echo_server.FixedBuffer.{small_buffer_size}
use echo_server.FixedBuffer.Contents.{IsValid}
use echo_server.Logger.{Logger, is_fatal, destroy, async_log}
use echo_server.Logger.Statement.{destroy-short}

-- Let the log's buffers have between 4096 and 2^31 bytes and be in order, and a line's stream too.
-- Then no line is dropped: what the destructor of the line, on a line of the source below 2^64,
-- hands over is put, whole, behind all that waits for the log's thread. So it is also with a line
-- of level FATAL, after which the program aborts.
pub destroy-held :
    (size : ℕ) (l : Logger) (a : AsyncLogging) (b : Backend)
    → small_buffer_size ≤ size
    → size < 2 ^ 31
    → IsValid small_buffer_size l.stream
    → l.line < 2 ^ 64
    → Inv size a b
    → (out : List ℕ) × (m : AsyncLogging) × (destroy l ≡ some (out, is_fatal l.level))
      × (async_log size out (some a) ≡ some m)
      × Inv size m b
      × (held m ≡ held a ++ out)
unfolding async_log
destroy-held size l a b large small v line w =
    let (out, e, short) = destroy-short l v line in
    let (again, grown) = append-held size out a b (omega arith) small w in
    let fits : ltb (length out) size ≡ true = lt→ltb (length out) size (omega arith) in
    (
      out,
      AsyncLogging.append size out a,
      e,
      refl,
      again,
      grown ∙ ap (λ t. held a ++ (if t then out else List.[])) fits,
    )
