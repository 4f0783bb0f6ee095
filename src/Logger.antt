-- ===== src/Logger.antt =====
-- include/Logger.h and log/Logger.cc: one line of the log, from the constructor of a `Logger` to
-- its destructor. The clock, `localtime` and `strerror_r` are arguments. `t_lastSecond` and
-- `time_` are written and never read, and are left out. What the destructor hands to `g_output` is
-- returned.
pub mod BaseName
pub mod Line
pub mod Statement
pub mod Delivery
pub mod Output
pub mod Examples
use echo_server.Prelude.{
  ℕ, ◌*◌, ◌/◌, ◌%◌, Bool, true, false, List, [], ◌∷◌, ◌++◌, Option, none, some, take, ◌==◌,
  if◌then◌else◌,
}
use echo_server.AsyncLogging
use echo_server.AsyncLogging.{AsyncLogging}
use echo_server.Decimal.Padded.{padded}
use echo_server.FixedBuffer
use echo_server.FixedBuffer.{FixedBuffer, small_buffer_size}
use echo_server.FixedBuffer.Contents.{contents}
use echo_server.LogStream.{pos, put_integer, put_char, put_string, Item, put_all}
use echo_server.Timestamp.{Tm, Timestamp, micro_per_second, date_text}

-- `strrchr(text, '/') + 1`, if there is a slash.
pub after_slash : List ℕ → Option (List ℕ)
after_slash [] = none
after_slash (c ∷ cs) = elim (after_slash cs) [
  | some rest ↦ some rest
  | none ↦ if c == b'/' then some cs else none
]

-- `SourceFile`.
unfoldable pub base_name : List ℕ → List ℕ
unfolding after_slash
base_name file_name = elim (after_slash file_name) [ none ↦ file_name | some rest ↦ rest ]

pub data LogLevel : Type 0 where
  trace debug info warm error fatal : LogLevel

-- `getLevelName`, six characters each: "TRACE ", "DEBUG ", "INFO  ", "WARM  ", "ERROR ", "FATAL ".
abbrev pub level_name : LogLevel → List ℕ
level_name trace = b'T' ∷ b'R' ∷ b'A' ∷ b'C' ∷ b'E' ∷ b' ' ∷ []
level_name debug = b'D' ∷ b'E' ∷ b'B' ∷ b'U' ∷ b'G' ∷ b' ' ∷ []
level_name info = b'I' ∷ b'N' ∷ b'F' ∷ b'O' ∷ b' ' ∷ b' ' ∷ []
level_name warm = b'W' ∷ b'A' ∷ b'R' ∷ b'M' ∷ b' ' ∷ b' ' ∷ []
level_name error = b'E' ∷ b'R' ∷ b'R' ∷ b'O' ∷ b'R' ∷ b' ' ∷ []
level_name fatal = b'F' ∷ b'A' ∷ b'T' ∷ b'A' ∷ b'L' ∷ b' ' ∷ []

-- `Logger::Impl`.
pub record Logger : Type 0 where
  pub stream : FixedBuffer
  pub level : LogLevel
  pub line : ℕ
  pub basename : List ℕ

-- The texts that `formatTime` cuts to 17 and to 7 characters. The first has at least 19.
abbrev pub time_text : (ℕ → Tm) → Timestamp → List ℕ
time_text localtime now = take 17 (date_text (localtime (now.micro_seconds / micro_per_second)))

abbrev pub micro_text : Timestamp → List ℕ
micro_text now = take 7 (padded 48 6 (now.micro_seconds % micro_per_second) ++ b' ' ∷ [])

unfoldable pub format_time : (ℕ → Tm) → Timestamp → FixedBuffer → FixedBuffer
format_time localtime now b = put_string (put_string b (time_text localtime now)) (micro_text now)

-- `message << " (errno=" << savedErrno << ") "`.
unfoldable pub put_errno : (ℕ → List ℕ) → ℕ → FixedBuffer → Option FixedBuffer
put_errno strerror saved_errno b =
    let opened =
      put_string (put_string b (strerror saved_errno))
        (b' ' ∷ b'(' ∷ b'e' ∷ b'r' ∷ b'r' ∷ b'n' ∷ b'o' ∷ b'=' ∷ []) in
    elim (put_integer opened (pos saved_errno)) [
      | none ↦ none
      | some c ↦ some (put_string c (b')' ∷ b' ' ∷ []))
    ]

-- The constructor of `Impl`; that of `Logger` calls it with no error.
unfoldable pub init_impl :
    (ℕ → Tm) → (ℕ → List ℕ) → Timestamp → LogLevel → ℕ → List ℕ → ℕ → Option Logger
unfolding format_time put_errno base_name
init_impl localtime strerror now level saved_errno file_name line =
    let labelled =
      put_string (format_time localtime now (FixedBuffer.init small_buffer_size))
        (level_name level) in
    elim (if saved_errno == 0 then some labelled else put_errno strerror saved_errno labelled) [
      | none ↦ none
      | some b ↦
          some (record { stream = b; level = level; line = line; basename = base_name file_name })
    ]

unfoldable pub init : (ℕ → Tm) → (ℕ → List ℕ) → Timestamp → List ℕ → ℕ → LogLevel → Option Logger
unfolding init_impl
init localtime strerror now file_name line level =
    init_impl localtime strerror now level 0 file_name line

unfoldable pub finish : Logger → Option Logger
finish l =
    let named = put_string (put_string l.stream (b' ' ∷ b'-' ∷ b' ' ∷ [])) l.basename in
    elim (put_integer (put_string named (b':' ∷ [])) (pos l.line)) [
      | none ↦ none
      | some b ↦ some (record l { stream = put_char b 10 })
    ]

abbrev pub is_fatal : LogLevel → Bool
is_fatal fatal = true
is_fatal _ = false

-- The destructor: what `g_output` is given, and whether the program flushes and aborts.
unfoldable pub destroy : Logger → Option (List ℕ × Bool)
unfolding finish
destroy l = elim (finish l) [ none ↦ none | some m ↦ some (contents m.stream, is_fatal m.level) ]

-- `asyncLog` of src/main.cc, which `main` sets as `g_output`.
unfoldable pub async_log : ℕ → List ℕ → Option AsyncLogging → Option AsyncLogging
async_log size line none = none
async_log size line (some logging) = some (AsyncLogging.append size line logging)

-- A statement `LOG_INFO << a << b;`, or of another level: the temporary `Logger` is constructed,
-- the items are written to its stream, and it is destroyed. Every level is always on.
unfoldable pub log_statement :
    (ℕ → Tm) → (ℕ → List ℕ) → Timestamp → List ℕ → ℕ → LogLevel → List Item → Option (List ℕ × Bool)
log_statement localtime strerror now file_name line level items =
    elim (init localtime strerror now file_name line level) [
      | none ↦ none
      | some l ↦ elim (put_all l.stream items) [
        | none ↦ none
        | some b ↦ destroy (record l { stream = b })
      ]
    ]
