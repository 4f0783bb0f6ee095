-- ===== src/LogStream/Holds.antt =====
-- What a line holds after a text or a number is written to it.
use echo_server.Prelude.{
  ℕ, ◌+◌, ◌^◌, ◌<◌, ◌≡◌, refl, sym, ap, ◌∙◌, inl, inr, true, List, [], ◌∷◌, ◌++◌, some, arith,
  Bool-cases, lt→ltb, length, length-take,
}
use echo_server.FixedBuffer
use echo_server.FixedBuffer.{FixedBuffer, small_buffer_size, valid}
use echo_server.FixedBuffer.Contents.{
  IsValid, contents, fits, init-IsValid, append-IsValid, append-whole,
}
use echo_server.LogStream.{ℤ, pos, format_integer, put_integer, put_char, put_string, max_num_size}
use echo_server.LogStream.Digits.{mag, text_of}
use echo_server.LogStream.Printed.{format_integer-printed}

-- The line is in order and holds this text.
pub record Holds (b : FixedBuffer) (text : List ℕ) : Type 0 where
  pub valid_line : IsValid small_buffer_size b
  pub text_is : contents b ≡ text

pub length-contents : (b : FixedBuffer) → IsValid small_buffer_size b → length (contents b) ≡ b.used
length-contents b v = omega (arith, length-take b.used b.bytes)

pub used-Holds : (b : FixedBuffer) (text : List ℕ) → Holds b text → b.used ≡ length text
used-Holds b text h = sym (length-contents b h.valid_line) ∙ ap length h.text_is

pub init-Holds : Holds (FixedBuffer.init small_buffer_size) []
unfolding FixedBuffer.init
init-Holds = record {
  valid_line = init-IsValid small_buffer_size (omega arith) (omega arith);
  text_is = refl;
}

pub put_string-Holds :
    (b : FixedBuffer) (text more : List ℕ)
    → Holds b text
    → length text + length more < small_buffer_size
    → Holds (put_string b more) (text ++ more)
unfolding put_string
put_string-Holds b text more h room =
    let fit : fits small_buffer_size b more ≡ true =
      lt→ltb (b.used + length more) small_buffer_size (omega (arith, used-Holds b text h)) in
    record {
      valid_line = append-IsValid small_buffer_size more h.valid_line;
      text_is =
          append-whole small_buffer_size more h.valid_line
          ∙ rw fit refl
          ∙ ap (λ xs. xs ++ more) h.text_is;
    }

pub put_char-Holds :
    (b : FixedBuffer) (text : List ℕ) (c : ℕ)
    → Holds b text
    → length text + 1 < small_buffer_size
    → Holds (put_char b c) (text ++ c ∷ [])
unfolding put_char put_string
put_char-Holds b text c h room = put_string-Holds b text (c ∷ []) h room

pub put_integer-Holds :
    (b : FixedBuffer) (text : List ℕ) (n : ℕ)
    → Holds b text
    → length text + max_num_size < small_buffer_size
    → n < 2 ^ 64
    → (c : FixedBuffer) × (put_integer b (pos n) ≡ some c) × Holds c (text ++ text_of 20 n)
unfolding put_integer
put_integer-Holds b text n h room small =
    let (c, e, v, t) =
      format_integer-printed small_buffer_size b (pos n) h.valid_line
        (omega (arith, used-Holds b text h)) small in
    (c, e, record { valid_line = v; text_is = t ∙ ap (λ xs. xs ++ text_of 20 n) h.text_is })

-- With room or without, a number leaves the line in order.
pub put_integer-IsValid :
    (b : FixedBuffer) (i : ℤ)
    → IsValid small_buffer_size b
    → mag i < 2 ^ 64
    → (c : FixedBuffer) × (put_integer b i ≡ some c) × IsValid small_buffer_size c
unfolding put_integer format_integer
put_integer-IsValid b i v small = elim (Bool-cases (valid small_buffer_size b max_num_size)) [
  | inl room ↦
      let (c, e, w, t) = format_integer-printed small_buffer_size b i v (ground arith) small in
      (c, e, w)
  | inr full ↦ (b, rw full refl, v)
]
