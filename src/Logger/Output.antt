-- ===== src/Logger/Output.antt =====
-- `g_output` and `g_flush` of log/Logger.cc: what the destructor of a line calls. `main` of
-- src/main.cc sets the first to `asyncLog`, and leaves the second, which flushes `stdout`.
use echo_server.Prelude.{
  ℕ, ◌^◌, ◌≤◌, ◌<◌, ◌≡◌, refl, ap, ◌∙◌, Bool, true, false, List, ◌++◌, Option, none, some, length,
  if◌then◌else◌,
}
use echo_server.AsyncLogging.{AsyncLogging, Backend}
use echo_server.AsyncLogging.Held.{held, Inv}
use echo_server.FixedBuffer.{small_buffer_size}
use echo_server.FixedBuffer.Contents.{IsValid}
use echo_server.Logger.{Logger, is_fatal, destroy, async_log}
use echo_server.Logger.Delivery.{destroy-held}
use echo_server.Logger.Statement.{destroy-short}

-- What was written to `stdout`, how much of it was written before the last `fflush`, and
-- `g_asyncLog`.
pub record World : Type 0 where
  pub stdout : List ℕ
  pub flushed : ℕ
  pub logging : Option AsyncLogging

abbrev pub OutputFunc : Type 0
OutputFunc = List ℕ → World → World

abbrev pub FlushFunc : Type 0
FlushFunc = World → World

unfoldable pub default_output : OutputFunc
default_output line w = record w { stdout = w.stdout ++ line }

unfoldable pub default_flush : FlushFunc
default_flush w = record w { flushed = length w.stdout }

-- `asyncLog` as a function that `setOutput` takes.
unfoldable pub async_output : ℕ → OutputFunc
async_output size line w = record w { logging = async_log size line w.logging }

pub record Globals : Type 0 where
  pub g_output : OutputFunc
  pub g_flush : FlushFunc

unfoldable pub init_globals : Globals
init_globals = record { g_output = default_output; g_flush = default_flush }

unfoldable pub set_output : OutputFunc → Globals → Globals
set_output out g = record g { g_output = out }

unfoldable pub set_flush : FlushFunc → Globals → Globals
set_flush flush g = record g { g_flush = flush }

-- `Logger::setOutput(asyncLog)` in `main`.
unfoldable pub main_globals : ℕ → Globals
unfolding set_output init_globals
main_globals size = set_output (async_output size) init_globals

-- The destructor with what it calls, and whether it aborts.
unfoldable pub destroy_with : Globals → Logger → World → Option (World × Bool)
destroy_with g l w = elim (destroy l) [
  | none ↦ none
  | some (out, aborts) ↦
      let v = g.g_output out w in some (if aborts then g.g_flush v else v, aborts)
]

-- Before `setOutput`, a line in order of level FATAL stands on `stdout`, behind all that was
-- written there, and all is flushed before the program aborts.
pub destroy_with-flushed :
    (l : Logger) (w : World)
    → IsValid small_buffer_size l.stream
    → l.line < 2 ^ 64
    → is_fatal l.level ≡ true
    → (out : List ℕ) × (v : World) × (destroy l ≡ some (out, true))
      × (destroy_with init_globals l w ≡ some (v, true))
      × (v.stdout ≡ w.stdout ++ out)
      × (v.flushed ≡ length v.stdout)
unfolding destroy_with init_globals default_output default_flush
destroy_with-flushed l w valid line is =
    let (out, e, short) = destroy-short l valid line in
    (
      out,
      default_flush (default_output out w),
      e ∙ ap (λ b. some (out, b)) is,
      rw (e, destroy_with) (rw is refl),
      refl,
      refl,
    )

-- The default flush has no part in the log.
flush-kept :
    (aborts : Bool) (w : World)
    → let v = if aborts then default_flush w else w in
      (v.logging ≡ w.logging) × (v.stdout ≡ w.stdout)
unfolding default_flush
flush-kept true w = (refl, refl)
flush-kept false w = (refl, refl)

-- Let the log's buffers have between 4096 and 2^31 bytes and be in order, and a line's stream too.
-- With the functions that `main` sets, no line is dropped: what the destructor of the line, on a
-- line of the source below 2^64, hands over is put, whole, behind all that waits for the log's
-- thread, and nothing goes to `stdout`. So it is also with a line of level FATAL, after which the
-- program aborts.
pub destroy_with-held :
    (size : ℕ) (l : Logger) (w : World) (a : AsyncLogging) (b : Backend)
    → small_buffer_size ≤ size
    → size < 2 ^ 31
    → IsValid small_buffer_size l.stream
    → l.line < 2 ^ 64
    → Inv size a b
    → w.logging ≡ some a
    → (out : List ℕ) × (v : World) × (m : AsyncLogging) × (destroy l ≡ some (out, is_fatal l.level))
      × (destroy_with (main_globals size) l w ≡ some (v, is_fatal l.level))
      × (v.logging ≡ some m)
      × Inv size m b
      × (held m ≡ held a ++ out)
      × (v.stdout ≡ w.stdout)
unfolding destroy_with main_globals async_output
destroy_with-held size l w a b large small valid line inv log =
    let (out, m, e, logged, again, grown) = destroy-held size l a b large small valid line inv in
    let u = async_output size out w in
    let (same_log, same_out) = flush-kept (is_fatal l.level) u in
    (
      out,
      if is_fatal l.level then default_flush u else u,
      m,
      e,
      rw (e, destroy_with) refl,
      same_log ∙ ap (async_log size out) log ∙ logged,
      again,
      grown,
      same_out,
    )
