-- ===== src/Logger/Line.antt =====
-- What a line of the log looks like.
use echo_server.Prelude.{
  ℕ, ◌+◌, ◌^◌, ◌≤◌, ◌<◌, ◌≡◌, ◌/◌, ◌%◌, refl, List, [], ◌∷◌, ◌++◌, some, arith, length,
  length-append, length-take,
}
use echo_server.Decimal.Padded.{padded}
use echo_server.FixedBuffer.{small_buffer_size}
use echo_server.FixedBuffer.Contents.{contents}
use echo_server.LogStream.{put_char}
use echo_server.LogStream.Digits.{text_of}
use echo_server.LogStream.Holds.{
  Holds, init-Holds, put_string-Holds, put_char-Holds, put_integer-Holds,
}
use echo_server.LogStream.Printed.{length-text_of}
use echo_server.Timestamp.{Tm, Timestamp, micro_per_second, date_text}
use echo_server.Logger.{
  Logger, LogLevel, trace, debug, info, warm, error, fatal, level_name, is_fatal, base_name,
  time_text, micro_text, init, finish, destroy,
}

-- Date and time, cut to 17 characters, the microseconds and the level.
abbrev pub head_text : (ℕ → Tm) → Timestamp → LogLevel → List ℕ
head_text localtime now level = (time_text localtime now ++ micro_text now) ++ level_name level

-- " - main.cc:42" and a line feed, behind a text.
abbrev pub with_tail : List ℕ → List ℕ → ℕ → List ℕ
with_tail text name line =
    (((text ++ (b' ' ∷ b'-' ∷ b' ' ∷ [])) ++ name) ++ b':' ∷ []) ++ text_of 20 line ++ 10 ∷ []

length-level_name : (level : LogLevel) → length (level_name level) ≡ 6
length-level_name trace = refl
length-level_name debug = refl
length-level_name info = refl
length-level_name warm = refl
length-level_name error = refl
length-level_name fatal = refl

length-time_text : (localtime : ℕ → Tm) (now : Timestamp) → length (time_text localtime now) ≤ 17
length-time_text localtime now =
    omega (arith, length-take 17 (date_text (localtime (now.micro_seconds / micro_per_second))))

length-micro_text : (now : Timestamp) → length (micro_text now) ≤ 7
length-micro_text now =
    omega (arith, length-take 7 (padded 48 6 (now.micro_seconds % micro_per_second) ++ b' ' ∷ []))

pub length-head_text :
    (localtime : ℕ → Tm) (now : Timestamp) (level : LogLevel)
    → length (head_text localtime now level) ≤ 30
length-head_text localtime now level = omega (
  arith,
  length-time_text localtime now,
  length-micro_text now,
  length-level_name level,
  length-append (time_text localtime now) (micro_text now),
  length-append (time_text localtime now ++ micro_text now) (level_name level),
)

-- A new line holds the head.
pub init-Holds_head :
    (localtime : ℕ → Tm) (strerror : ℕ → List ℕ) (now : Timestamp) (file_name : List ℕ) (line : ℕ)
    (level : LogLevel)
    → (l : Logger) × (init localtime strerror now file_name line level ≡ some l)
      × Holds l.stream (head_text localtime now level)
      × (l.level ≡ level)
      × (l.line ≡ line)
      × (l.basename ≡ base_name file_name)
unfolding init
init-Holds_head localtime strerror now file_name line level =
    let time = length-time_text localtime now in
    let micro = length-micro_text now in
    let timed = put_string-Holds _ [] (time_text localtime now) init-Holds (omega arith) in
    let exact = put_string-Holds _ (time_text localtime now) (micro_text now) timed (omega arith) in
    let labelled =
      put_string-Holds _ (time_text localtime now ++ micro_text now) (level_name level) exact (
        omega (
          arith,
          length-level_name level,
          length-append (time_text localtime now) (micro_text now),
        )) in
    (_, refl, labelled, refl, refl, refl)

-- The end of a line is written whole where 70 bytes and the file's name have room.
pub finish-Holds :
    (l : Logger) (text : List ℕ)
    → Holds l.stream text
    → length text + length l.basename + 70 < small_buffer_size
    → l.line < 2 ^ 64
    → (m : Logger) × (finish l ≡ some m)
      × (m.level ≡ l.level)
      × Holds m.stream (with_tail text l.basename l.line)
unfolding finish
finish-Holds l text h room small =
    let dash = b' ' ∷ b'-' ∷ b' ' ∷ [] in
    let dashed = put_string-Holds l.stream text dash h (omega arith) in
    let n = length-append text dash in
    let named = put_string-Holds _ (text ++ dash) l.basename dashed (omega (arith, n)) in
    let n2 = length-append (text ++ dash) l.basename in
    let colon =
      put_string-Holds _ ((text ++ dash) ++ l.basename) (b':' ∷ []) named (omega (arith, n, n2)) in
    let n3 = length-append ((text ++ dash) ++ l.basename) (b':' ∷ []) in
    let (c, e, counted) = put_integer-Holds _ _ l.line colon (omega (arith, n, n2, n3)) small in
    let n4 = length-append (((text ++ dash) ++ l.basename) ++ b':' ∷ []) (text_of 20 l.line) in
    let n5 = length-text_of l.line in
    let ended = put_char-Holds c _ 10 counted (omega (arith, n, n2, n3, n4, n5)) in
    (record l { stream = put_char c 10 }, rw (e, finish) refl, refl, ended)

pub destroy-finish :
    (l m : Logger) {level : LogLevel} {text : List ℕ}
    → finish l ≡ some m
    → m.level ≡ level
    → contents m.stream ≡ text
    → destroy l ≡ some (text, is_fatal level)
unfolding destroy
destroy-finish l m e same t = rw (e, destroy) (rw (same, t) refl)
