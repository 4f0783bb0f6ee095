-- ===== src/LogStream/Whole.antt =====
-- A line after any sequence of `<<`.
use echo_server.Prelude.{
  ℕ, ◌+◌, ◌^◌, ◌<◌, ◌≡◌, refl, ap, ◌∙◌, inl, inr, true, false, List, [], ◌∷◌, ◌++◌, some, arith,
  if◌then◌else◌, ltb, Bool-cases, length, take, length-append, append-nil, append_assoc,
}
use echo_server.FixedBuffer
use echo_server.FixedBuffer.{FixedBuffer, small_buffer_size, valid}
use echo_server.FixedBuffer.Contents.{append-IsValid, append-whole}
use echo_server.LogStream.{
  ℤ, format_integer, put_integer, put_char, put_string, put_bool, put_double, max_num_size, Item,
  text_item, char_item, bool_item, integer_item, double_item, put_item, put_all,
}
use echo_server.LogStream.Digits.{mag}
use echo_server.LogStream.Printed.{printed, format_integer-printed}
use echo_server.LogStream.Holds.{Holds, used-Holds}

-- The characters of an item, and how many a line must have room for.
abbrev pub shown : Item → List ℕ
shown (text_item text) = text
shown (char_item c) = c ∷ []
shown (bool_item true) = b't' ∷ b'r' ∷ b'u' ∷ b'e' ∷ []
shown (bool_item false) = b'f' ∷ b'a' ∷ b'l' ∷ b's' ∷ b'e' ∷ []
shown (integer_item number) = printed number
shown (double_item text) = take 31 text

abbrev pub needed : Item → ℕ
needed (integer_item number) = max_num_size
needed i = length (shown i)

-- The items that fit, one after another, each whole, where `used` bytes are taken.
abbrev pub fitting : ℕ → List Item → List ℕ
fitting used [] = []
fitting used (i ∷ is) =
    let rest = fitting (used + length (shown i)) is in
    let skipped = fitting used is in
    if ltb (used + needed i) small_buffer_size then shown i ++ rest else skipped

-- Numbers have at most 64 bits.
abbrev pub IsSmall : Item → Type 0
IsSmall (integer_item number) = mag number < 2 ^ 64
IsSmall i = Unit

abbrev pub AllSmall : List Item → Type 0
AllSmall [] = Unit
AllSmall (i ∷ is) = IsSmall i × AllSmall is

-- What one item leaves behind `text`.
abbrev after_item : List ℕ → Item → List ℕ
after_item text i = if ltb (length text + needed i) small_buffer_size then text ++ shown i else text

append-Holds :
    (b : FixedBuffer) (text more : List ℕ)
    → Holds b text
    → Holds
        (FixedBuffer.append small_buffer_size b more)
        (if ltb (length text + length more) small_buffer_size then text ++ more else text)
append-Holds b text more h = record {
  valid_line = append-IsValid small_buffer_size more h.valid_line;
  text_is =
      append-whole small_buffer_size more h.valid_line ∙ rw (h.text_is, used-Holds b text h) refl;
}

put_integer-after :
    (b : FixedBuffer) (text : List ℕ) (n : ℤ)
    → Holds b text
    → mag n < 2 ^ 64
    → (c : FixedBuffer) × (put_integer b n ≡ some c) × Holds c (after_item text (integer_item n))
unfolding put_integer format_integer
put_integer-after b text n h small =
    let used = used-Holds b text h in
    let room : valid small_buffer_size b max_num_size
        ≡ ltb (length text + max_num_size) small_buffer_size =
      ground (arith, h.valid_line) in
    elim (Bool-cases (ltb (length text + max_num_size) small_buffer_size)) [
      | inl enough ↦
          let (c, e, v, t) =
            format_integer-printed small_buffer_size b n h.valid_line (ground arith) small in
          (
            c,
            e,
            record {
              valid_line = v;
              text_is = rw enough (t ∙ ap (λ xs. xs ++ printed n) h.text_is);
            },
          )
      | inr full ↦ (b, rw (room, full) refl, rw full h)
    ]

put_item-after :
    (b : FixedBuffer) (text : List ℕ) (i : Item)
    → Holds b text
    → IsSmall i
    → (c : FixedBuffer) × (put_item b i ≡ some c) × Holds c (after_item text i)
unfolding put_item put_string put_char put_bool put_double
put_item-after b text (text_item more) h s = (_, refl, append-Holds b text more h)
put_item-after b text (char_item c) h s = (_, refl, append-Holds b text (c ∷ []) h)
put_item-after b text (bool_item true) h s = (_, refl, append-Holds b text _ h)
put_item-after b text (bool_item false) h s = (_, refl, append-Holds b text _ h)
put_item-after b text (integer_item n) h s = put_integer-after b text n h s
put_item-after b text (double_item more) h s = (_, refl, append-Holds b text (take 31 more) h)

fitting-after :
    (text : List ℕ) (i : Item) (is : List Item)
    → after_item text i ++ fitting (length (after_item text i)) is
      ≡ text ++ fitting (length text) (i ∷ is)
fitting-after text i is = elim (Bool-cases (ltb (length text + needed i) small_buffer_size)) [
  | inl enough ↦
      rw (enough, length-append text (shown i))
        (append_assoc text (shown i) (fitting (length text + length (shown i)) is))
  | inr full ↦ rw full refl
]

-- Any sequence of `<<` on a line in order, with numbers of at most 64 bits, reads nothing outside
-- the table of digits, writes nothing outside the 4096 bytes, and leaves the line in order. Behind
-- what was there it holds the items that fit, each of them whole, in order; an item fits when it
-- leaves a byte free behind it, an integer when more than 32 bytes are left.
pub put_all-Holds :
    (b : FixedBuffer) (text : List ℕ) (items : List Item)
    → Holds b text
    → AllSmall items
    → (c : FixedBuffer) × (put_all b items ≡ some c) × Holds c (text ++ fitting (length text) items)
unfolding put_all
put_all-Holds b text [] h s = (b, refl, rw (append-nil text) h)
put_all-Holds b text (i ∷ is) h (s, ss) =
    let (c, e, k) = put_item-after b text i h s in
    let (d, rest, l) = put_all-Holds c (after_item text i) is k ss in
    (d, rw (e, put_all) rest, rw (← fitting-after text i is) l)
