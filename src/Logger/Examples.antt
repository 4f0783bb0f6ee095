-- ===== src/Logger/Examples.antt =====
-- A line of the first day of 1970.
use echo_server.Prelude.{
  ℕ, ◌/◌, ◌%◌, ◌≡◌, ◌++◌, refl, true, List, [], ◌∷◌, some, arith, ◌<◌, length,
}
use echo_server.AsyncLogging
use echo_server.AsyncLogging.{AsyncLogging, init_backend}
use echo_server.AsyncLogging.Held.{held, Inv, init-Inv}
use echo_server.FixedBuffer
use echo_server.FixedBuffer.{small_buffer_size}
use echo_server.FixedBuffer.Contents.{IsValid, init-IsValid}
use echo_server.Decimal.{decimal}
use echo_server.Decimal.Padded.{padded}
use echo_server.Timestamp.{Tm, Timestamp, date_text}
use echo_server.Logger.{Logger, info, fatal, is_fatal, base_name, destroy, log_statement}
use echo_server.LogStream.{Item, text_item, bool_item, integer_item, double_item, negsuc}
use echo_server.LogStream.Whole.{AllSmall}
use echo_server.Logger.Line.{with_tail}
use echo_server.Logger.Statement.{text_of_statement, log_statement-bounded, log_statement-line}
use echo_server.Logger.Output.{World, destroy_with, main_globals, destroy_with-held}

abbrev first_day : ℕ → Tm
first_day s = record {
  year = 70;
  mon = 0;
  mday = 1;
  hour = s / 3600 % 24;
  minute = s / 60 % 60;
  sec = s % 60;
}

abbrev stamp : Timestamp
stamp = record { micro_seconds = 3661000042 }

-- "src/a.cc"
abbrev path : List ℕ
path = b's' ∷ b'r' ∷ b'c' ∷ b'/' ∷ b'a' ∷ b'.' ∷ b'c' ∷ b'c' ∷ []

name_of_path : base_name path ≡ b'a' ∷ b'.' ∷ b'c' ∷ b'c' ∷ []
unfolding base_name
name_of_path = refl

-- "hi", true, -7 and 0.5, which leaves 49 of 4096 bytes.
abbrev items : List Item
items =
    text_item (b'h' ∷ b'i' ∷ [])
    ∷ bool_item true
    ∷ integer_item (negsuc 6)
    ∷ double_item (b'0' ∷ b'.' ∷ b'5' ∷ [])
    ∷ []

items-AllSmall : AllSmall items
items-AllSmall = (tt, (tt, (omega arith, (tt, tt))))

log_statement-line_example :
    log_statement first_day (λ e. []) stamp path 42 info items
    ≡ some (
      with_tail (text_of_statement first_day stamp info items) (base_name path) 42,
      is_fatal info,
    )
unfolding base_name date_text padded decimal
log_statement-line_example =
    log_statement-line first_day (λ e. []) stamp path 42 info items (omega arith) items-AllSmall
      (omega arith)

log_statement-bounded_example :
    (out : List ℕ) × (log_statement first_day (λ e. []) stamp path 42 fatal items
      ≡ some (out, is_fatal fatal))
    × (length out < small_buffer_size)
log_statement-bounded_example =
    log_statement-bounded first_day (λ e. []) stamp path 42 fatal items (omega arith) items-AllSmall

-- A line of level FATAL, with nothing in it yet.
abbrev pub last_words : Logger
last_words = record {
  stream = FixedBuffer.init small_buffer_size;
  level = fatal;
  line = 7;
  basename = b'a' ∷ [];
}

pub last_words-IsValid : IsValid small_buffer_size last_words.stream
last_words-IsValid = init-IsValid small_buffer_size (omega arith) (omega arith)

abbrev world : World
world = record { stdout = b'x' ∷ []; flushed = 0; logging = some (AsyncLogging.init 4096) }

destroy_with-held_example :
    (out : List ℕ) × (v : World) × (m : AsyncLogging) × (destroy last_words
      ≡ some (out, is_fatal fatal))
    × (destroy_with (main_globals 4096) last_words world ≡ some (v, is_fatal fatal))
    × (v.logging ≡ some m)
    × Inv 4096 m (init_backend 4096)
    × (held m ≡ held (AsyncLogging.init 4096) ++ out)
    × (v.stdout ≡ b'x' ∷ [])
destroy_with-held_example =
    destroy_with-held 4096 last_words world (AsyncLogging.init 4096) (init_backend 4096)
      (omega arith) (omega arith) last_words-IsValid (omega arith)
      (init-Inv 4096 (omega arith) (omega arith)) refl
