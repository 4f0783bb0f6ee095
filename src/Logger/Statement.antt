-- ===== src/Logger/Statement.antt =====
-- A whole statement of the log, whatever is written in it.
use echo_server.Prelude.{
  ℕ, ◌+◌, ◌^◌, ◌<◌, ◌≡◌, refl, ap, ◌∙◌, List, [], ◌∷◌, ◌++◌, some, arith, length,
}
use echo_server.FixedBuffer
use echo_server.FixedBuffer.{FixedBuffer, small_buffer_size}
use echo_server.FixedBuffer.Contents.{IsValid, contents, append-IsValid}
use echo_server.LogStream.{pos, put_char, put_string, Item, put_all}
use echo_server.LogStream.Holds.{length-contents, put_integer-IsValid}
use echo_server.LogStream.Whole.{AllSmall, fitting, put_all-Holds}
use echo_server.Timestamp.{Tm, Timestamp}
use echo_server.Logger.{Logger, LogLevel, is_fatal, base_name, init, finish, destroy, log_statement}
use echo_server.Logger.Line.{head_text, with_tail, init-Holds_head, finish-Holds, destroy-finish}

-- The head and the items that fit behind it.
abbrev pub text_of_statement : (ℕ → Tm) → Timestamp → LogLevel → List Item → List ℕ
text_of_statement localtime now level items =
    head_text localtime now level ++ fitting (length (head_text localtime now level)) items

-- Any line that is in order, however long its parts are, ends in order: it is handed over, and has
-- fewer than 4096 bytes.
pub destroy-short :
    (l : Logger)
    → IsValid small_buffer_size l.stream
    → l.line < 2 ^ 64
    → (out : List ℕ) × (destroy l ≡ some (out, is_fatal l.level)) × (length out < small_buffer_size)
unfolding destroy finish put_string put_char
destroy-short l v small =
    let dash = append-IsValid small_buffer_size (b' ' ∷ b'-' ∷ b' ' ∷ []) v in
    let named = append-IsValid small_buffer_size l.basename dash in
    let colon = append-IsValid small_buffer_size (b':' ∷ []) named in
    let (c, e, w) = put_integer-IsValid _ (pos l.line) colon small in
    let ended = append-IsValid small_buffer_size (10 ∷ []) w in
    (
      contents (FixedBuffer.append small_buffer_size c (10 ∷ [])),
      rw (e, destroy) refl,
      omega (arith, length-contents _ ended),
    )

-- What a statement does, given the line that its items make.
statement-destroy :
    (localtime : ℕ → Tm) (strerror : ℕ → List ℕ) (now : Timestamp) (file_name : List ℕ) (line : ℕ)
    (level : LogLevel) (items : List Item) (l : Logger) (b : FixedBuffer)
    → init localtime strerror now file_name line level ≡ some l
    → put_all l.stream items ≡ some b
    → log_statement localtime strerror now file_name line level items
      ≡ destroy (record l { stream = b })
unfolding log_statement
statement-destroy localtime strerror now file_name line level items l b made e =
    rw (made, log_statement) (rw (e) refl)

-- A statement of the log, with numbers of at most 64 bits in it and on a line below 2^31, reads
-- nothing outside the table of digits and writes nothing outside the 4096 bytes of its buffer,
-- however many items it has and however long they are: it hands over fewer than 4096 bytes, and
-- flushes and aborts exactly when its level is FATAL.
pub log_statement-bounded :
    (localtime : ℕ → Tm) (strerror : ℕ → List ℕ) (now : Timestamp) (file_name : List ℕ) (line : ℕ)
    (level : LogLevel) (items : List Item)
    → line < 2 ^ 31
    → AllSmall items
    → (out : List ℕ) × (log_statement localtime strerror now file_name line level items
        ≡ some (out, is_fatal level))
      × (length out < small_buffer_size)
log_statement-bounded localtime strerror now file_name line level items small all =
    let (l, made, h, is_level, is_line, is_name) =
      init-Holds_head localtime strerror now file_name line level in
    let (b, e, k) = put_all-Holds l.stream _ items h all in
    let (out, done, short) =
      destroy-short (record l { stream = b }) k.valid_line (omega (arith, is_line)) in
    (
      out,
      statement-destroy localtime strerror now file_name line level items l b made e
          ∙ done
          ∙ ap (λ v. some (out, is_fatal v)) is_level,
      short,
    )

-- The line of a statement with numbers of at most 64 bits, on a line below 2^31: date and time cut
-- to 17 characters, microseconds, level, the items that fit, each of them whole and in order,
-- " - ", the name of the file without its directory, a colon, the number of the line and a line
-- feed, where all before " - " and the name leave more than 70 of the 4096 bytes.
pub log_statement-line :
    (localtime : ℕ → Tm) (strerror : ℕ → List ℕ) (now : Timestamp) (file_name : List ℕ) (line : ℕ)
    (level : LogLevel) (items : List Item)
    → line < 2 ^ 31
    → AllSmall items
    → length (text_of_statement localtime now level items) + length (base_name file_name) + 70
      < small_buffer_size
    → log_statement localtime strerror now file_name line level items
      ≡ some (
        with_tail (text_of_statement localtime now level items) (base_name file_name) line,
        is_fatal level,
      )
log_statement-line localtime strerror now file_name line level items small all room =
    let text = text_of_statement localtime now level items in
    let (l, made, h, is_level, is_line, is_name) =
      init-Holds_head localtime strerror now file_name line level in
    let (b, e, k) = put_all-Holds l.stream _ items h all in
    let (m, ended, same_level, holds) =
      finish-Holds (record l { stream = b }) text k (omega (arith, ap length is_name))
        (omega (arith, is_line)) in
    statement-destroy localtime strerror now file_name line level items l b made e
    ∙ destroy-finish (record l { stream = b }) m ended (same_level ∙ is_level)
        (holds.text_is
          ∙ ap (λ name. with_tail text name l.line) is_name
          ∙ ap (with_tail text (base_name file_name)) is_line)
