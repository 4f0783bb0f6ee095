-- ===== src/LogPipeline.antt =====
-- The way of a line from the destructor of its `Logger` (log/Logger.cc) through `asyncLog`
-- (src/main.cc) and the thread of the log (log/AsyncLogging.cc) into the files (log/LogFile.cc).
-- Lines and rounds of the thread come in any order. The clock and the stream's answers come with a
-- round.
mod Files
mod Whole
mod Examples
use echo_server.Prelude.{
  ℕ, ◌+◌, ◌*◌, Bool, List, [], ◌∷◌, ◌++◌, Option, none, some, ◌==◌, if◌then◌else◌, length,
}
use echo_server.AsyncLogging
use echo_server.AsyncLogging.{AsyncLogging, Backend}
use echo_server.FixedBuffer.{FixedBuffer, large_buffer_size}
use echo_server.FixedBuffer.Contents.{contents}
use echo_server.LogFile
use echo_server.LogFile.{LogFile, write_all, append_in_lock}
use echo_server.Logger
use echo_server.Logger.{Logger, async_log}

-- The files of the log with what has reached them: those that are closed, and the open one.
pub record Disk : Type 0 where
  pub file : LogFile
  pub closed : List (List ℕ)
  pub current : List ℕ

-- What the system answers in one call of `LogFile::append`: the stream, and the two reads of the
-- clock.
pub record Answer : Type 0 where
  pub kernel : ℕ → ℕ → ℕ × Bool
  pub now : ℕ
  pub roll_now : ℕ

-- `file` is the log file behind the call, and `out` what reached the stream in it, before a new
-- file was opened.
unfoldable pub settle : LogFile → List ℕ → Disk → Disk
settle file out d =
    if file.files == d.file.files
    then record d { file = file; current = d.current ++ out }
    else record d { file = file; closed = d.closed ++ (d.current ++ out) ∷ []; current = [] }

-- `LogFile::append`. One call of `fwrite` for each byte is allowed.
unfoldable pub append : Answer → List ℕ → Disk → Option Disk
unfolding settle
append a bytes d = elim (write_all a.kernel (length bytes) 0 bytes) [
  | none ↦ none
  | some (out, k) ↦ some (settle (append_in_lock k a.now a.roll_now d.file) out d)
]

-- The loop over `buffersToWrite`, with the answers for its `i`-th round and the following ones.
unfoldable pub append_buffers : (ℕ → Answer) → ℕ → List FixedBuffer → Disk → Option Disk
unfolding append
append_buffers answers i [] d = some d
append_buffers answers i (b ∷ bs) d = elim (append (answers i) (contents b) d) [
  | none ↦ none
  | some e ↦ append_buffers answers (i + 1) bs e
]

pub record Log : Type 0 where
  pub front : AsyncLogging
  pub back : Backend
  pub disk : Disk

-- What happens to the log: a `Logger` is destroyed, or the thread makes a round.
pub data Event : Type 0 where
  ended : Logger → Event
  written : (ℕ → Answer) → Event

-- `none` is also the end of the program behind a line of level FATAL.
unfoldable pub step : ℕ → Event → Log → Option Log
unfolding append_buffers
step size (ended l) g = elim (Logger.destroy l) [
  | none ↦ none
  | some (out, aborts) ↦ elim (async_log size out (some g.front)) [
    | none ↦ none
    | some a ↦ if aborts then none else some (record g { front = a })
  ]
]
step size (written answers) g = elim (AsyncLogging.round g.front g.back) [
  | none ↦ none
  | some (a, b) ↦ elim (append_buffers answers 0 (g.front.buffers ++ g.front.current ∷ []) g.disk) [
    | none ↦ none
    | some d ↦ some (record { front = a; back = b; disk = d })
  ]
]

unfoldable pub run : ℕ → List Event → Log → Option Log
unfolding step
run size [] g = some g
run size (e ∷ es) g = elim (step size e g) [ none ↦ none | some h ↦ run size es h ]

-- The log that `main` starts.
unfoldable pub begin : ℕ → Disk → Log
begin size d = record {
  front = AsyncLogging.start (AsyncLogging.init size);
  back = AsyncLogging.init_backend size;
  disk = d;
}

-- "logs/" and the name of the program, as `::basename` gives it: what the names of the files begin
-- with.
abbrev pub log_path : List ℕ → List ℕ
log_path program = b'l' ∷ b'o' ∷ b'g' ∷ b's' ∷ b'/' ∷ program

abbrev pub roll_size : ℕ
roll_size = 1 * 1024 * 1024

-- The log of `main`, once its thread has opened the first file, at `now`.
unfoldable pub main_log : ℕ → Log
unfolding begin
main_log now =
    begin large_buffer_size
      (record { file = LogFile.init roll_size 3 1024 now; closed = []; current = [] })
