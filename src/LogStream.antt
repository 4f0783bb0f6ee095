-- ===== src/LogStream.antt =====
-- include/LogStream.h and log/LogStream.cc: text and numbers for one log line. An integer type of
-- the source is the type of all integers, which none of them leaves: its numbers are below 2^64.
-- What `snprintf` makes of a floating point number is an argument.
pub mod Digits
pub mod Printed
pub mod Holds
pub mod Whole
mod Examples
use echo_server.Prelude.{
  ℕ, zero, suc, ◌+◌, ◌-◌, ◌/◌, ◌%◌, Bool, true, false, List, [], ◌∷◌, ◌++◌, Option, none, some,
  if◌then◌else◌, ltb, ◌==◌, length, get_elem?, overwrite, take,
}
use echo_server.FixedBuffer
use echo_server.FixedBuffer.{FixedBuffer, valid, small_buffer_size}

-- `negsuc n` is `-(n + 1)`.
pub data ℤ : Type 0 where
  pos negsuc : ℕ → ℤ

unfoldable pub negate : ℕ → ℤ
negate zero = pos 0
negate (suc n) = negsuc n

-- `num / 10` and `num % 10` round towards zero.
unfoldable pub quot10 : ℤ → ℤ
unfolding negate
quot10 (pos n) = pos (n / 10)
quot10 (negsuc n) = negate ((n + 1) / 10)

unfoldable pub rem10 : ℤ → ℤ
unfolding negate
rem10 (pos n) = pos (n % 10)
rem10 (negsuc n) = negate ((n + 1) % 10)

abbrev pub is_zero : ℤ → Bool
is_zero (pos n) = n == 0
is_zero (negsuc n) = false

abbrev pub is_negative : ℤ → Bool
is_negative (pos n) = false
is_negative (negsuc n) = true

-- "9876543210123456789", in which `zero` points at the zero in the middle.
abbrev pub digit_table : List ℕ
digit_table =
    57 ∷ 56 ∷ 55 ∷ 54 ∷ 53 ∷ 52 ∷ 51 ∷ 50 ∷ 49 ∷ 48 ∷ 49 ∷ 50 ∷ 51 ∷ 52 ∷ 53 ∷ 54 ∷ 55 ∷ 56 ∷ 57
    ∷ []

-- `zero[remainder]`; `none` is a read out of range.
unfoldable pub char_at : ℤ → Option ℕ
char_at (pos r) = get_elem? digit_table (9 + r)
char_at (negsuc r) = if ltb 9 (r + 1) then none else get_elem? digit_table (9 - (r + 1))

-- The loop of `formatInteger`: the digits from the last one on. `none` is a read out of range, or a
-- number with more digits than `fuel`.
unfoldable pub back_digits : ℕ → ℤ → Option (List ℕ)
unfolding char_at rem10 quot10
back_digits zero i = if is_zero i then some [] else none
back_digits (suc fuel) i =
    let rest = back_digits fuel (quot10 i) in
    if is_zero i then some [] else elim (char_at (rem10 i)) [
      | none ↦ none
      | some c ↦ elim rest [ none ↦ none | some cs ↦ some (c ∷ cs) ]
    ]

abbrev pub reverse : List ℕ → List ℕ
reverse [] = []
reverse (x ∷ xs) = reverse xs ++ x ∷ []

abbrev pub max_num_size : ℕ
max_num_size = 32

-- What stands in the array at the end: the reversed text, and a zero byte behind it.
unfoldable pub put_text : FixedBuffer → List ℕ → FixedBuffer
put_text b text =
    FixedBuffer.add
      (record b { bytes = overwrite (overwrite b.bytes b.cur text) (b.cur + length text) (0 ∷ []) })
      (length text)

unfoldable pub format_integer : ℕ → FixedBuffer → ℤ → Option FixedBuffer
unfolding put_text
format_integer size b num =
    if valid size b max_num_size
    then elim (back_digits 20 num) [
      | none ↦ none
      | some ds ↦ some (put_text b (reverse (if is_negative num then ds ++ b'-' ∷ [] else ds)))
    ]
    else some b

-- `operator<<` of the eight integer types.
unfoldable pub put_integer : FixedBuffer → ℤ → Option FixedBuffer
unfolding format_integer
put_integer b number = format_integer small_buffer_size b number

-- `operator<<` of a truth value, of a character, and of a text with its length.
unfoldable pub put_bool : FixedBuffer → Bool → FixedBuffer
put_bool b express =
    FixedBuffer.append small_buffer_size b
      (if express then 116 ∷ 114 ∷ 117 ∷ 101 ∷ [] else 102 ∷ 97 ∷ 108 ∷ 115 ∷ 101 ∷ [])

unfoldable pub put_char : FixedBuffer → ℕ → FixedBuffer
put_char b c = FixedBuffer.append small_buffer_size b (c ∷ [])

unfoldable pub put_string : FixedBuffer → List ℕ → FixedBuffer
put_string b text = FixedBuffer.append small_buffer_size b text

-- `operator<<` of a `float` and a `double`: `snprintf` keeps 31 characters of what "%.12g" prints.
unfoldable pub put_double : FixedBuffer → List ℕ → FixedBuffer
put_double b shown = FixedBuffer.append small_buffer_size b (take 31 shown)

-- `append` and `buffer_reset`.
unfoldable pub append : FixedBuffer → List ℕ → FixedBuffer
append b buf = FixedBuffer.append small_buffer_size b buf

unfoldable pub buffer_reset : FixedBuffer → FixedBuffer
buffer_reset b = FixedBuffer.reset b

-- What can stand behind a `<<`. A floating point number is the text that "%.12g" prints.
pub data Item : Type 0 where
  text_item : List ℕ → Item
  char_item : ℕ → Item
  bool_item : Bool → Item
  integer_item : ℤ → Item
  double_item : List ℕ → Item

unfoldable pub put_item : FixedBuffer → Item → Option FixedBuffer
unfolding put_string put_char put_bool put_integer put_double
put_item b (text_item text) = some (put_string b text)
put_item b (char_item c) = some (put_char b c)
put_item b (bool_item express) = some (put_bool b express)
put_item b (integer_item number) = put_integer b number
put_item b (double_item shown) = some (put_double b shown)

-- `stream << a << b << ...`
unfoldable pub put_all : FixedBuffer → List Item → Option FixedBuffer
unfolding put_item
put_all b [] = some b
put_all b (i ∷ is) = elim (put_item b i) [ none ↦ none | some c ↦ put_all c is ]
