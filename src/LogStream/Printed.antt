-- ===== src/LogStream/Printed.antt =====
-- What `formatInteger` adds to a line.
use echo_server.Prelude.{
  ℕ, ◌+◌, ◌^◌, ◌<◌, ◌≤◌, ◌≡◌, refl, ap, ◌∙◌, inl, inr, true, List, [], ◌∷◌, ◌++◌, some, arith,
  if◌then◌else◌, ◌==◌, Bool-cases, length, take, overwrite, take-overwrite, length-overwrite,
  take-overwrite_below,
}
use echo_server.Decimal.{decimal, length-decimal, value, value-decimal, value_from}
use echo_server.FixedBuffer.{FixedBuffer, add, valid}
use echo_server.FixedBuffer.Contents.{IsValid, contents}
use echo_server.LogStream.{
  ℤ, pos, negsuc, is_negative, reverse, put_text, format_integer, max_num_size,
}
use echo_server.LogStream.Digits.{mag, text_of, back_digits_lem}

-- A sign if the number is negative, then its decimal numeral, or nothing for zero.
abbrev pub printed : ℤ → List ℕ
printed i = if is_negative i then b'-' ∷ text_of 20 (mag i) else text_of 20 (mag i)

reverse-snoc : (xs : List ℕ) (x : ℕ) → reverse (xs ++ x ∷ []) ≡ x ∷ reverse xs
reverse-snoc [] x = refl
reverse-snoc (y ∷ ys) x = ap (λ zs. zs ++ y ∷ []) (reverse-snoc ys x)

reverse-printed :
    (i : ℤ) (ds : List ℕ)
    → reverse ds ≡ text_of 20 (mag i)
    → reverse (if is_negative i then ds ++ b'-' ∷ [] else ds) ≡ printed i
reverse-printed (pos n) ds e = e
reverse-printed (negsuc n) ds e = reverse-snoc ds b'-' ∙ ap (◌∷◌ b'-') e

pub length-text_of : (n : ℕ) → length (text_of 20 n) ≤ 20
unfolding decimal
length-text_of n = elim (Bool-cases (n == 0)) [
  | inl none_left ↦ rw none_left (omega arith)
  | inr some_left ↦ rw some_left (length-decimal n)
]

length-printed : (i : ℤ) → length (printed i) ≤ 21
length-printed (pos n) = omega (arith, length-text_of n)
length-printed (negsuc n) = omega (arith, length-text_of (n + 1))

put_text-IsValid :
    (size : ℕ) (b : FixedBuffer) (text : List ℕ)
    → IsValid size b
    → b.used + length text < size
    → IsValid size (put_text b text)
unfolding put_text add
put_text-IsValid size b text v h = ground (
  arith,
  length-overwrite b.bytes b.cur text,
  length-overwrite (overwrite b.bytes b.cur text) (b.cur + length text) (0 ∷ []),
)

contents-put_text :
    (size : ℕ) (b : FixedBuffer) (text : List ℕ)
    → IsValid size b
    → b.used + length text < size
    → contents (put_text b text) ≡ contents b ++ text
unfolding put_text add
contents-put_text size b text v h = rw (v.cursor) (
    ap (λ n. take n (overwrite (overwrite b.bytes b.used text) (b.used + length text) (0 ∷ [])))
      (omega arith)
    ∙ take-overwrite_below (overwrite b.bytes b.used text) (b.used + length text)
        (b.used + length text) (0 ∷ []) (omega arith)
    ∙ take-overwrite b.bytes b.used text (omega arith))

-- On a valid buffer in which more than 32 bytes are left, `formatInteger` of a number of at most
-- 64 bits never reads outside its table of digits and ends within twenty digits. It adds the sign
-- and the decimal numeral behind the line, and nothing at all for zero; the buffer stays in order.
pub format_integer-printed :
    (size : ℕ) (b : FixedBuffer) (i : ℤ)
    → IsValid size b
    → b.used + max_num_size < size
    → mag i < 2 ^ 64
    → (c : FixedBuffer) × (format_integer size b i ≡ some c)
      × IsValid size c
      × (contents c ≡ contents b ++ printed i)
unfolding format_integer
format_integer-printed size b i v room h =
    let fit : valid size b max_num_size ≡ true = ground arith in
    let (ds, e, f) = back_digits_lem 20 i (omega arith) in
    let text = reverse-printed i ds f in
    let short : b.used + length (printed i) < size = omega (arith, length-printed i) in
    (
      put_text b (printed i),
      rw (fit, e) (ap (λ xs. some (put_text b xs)) text),
      put_text-IsValid size b (printed i) v short,
      contents-put_text size b (printed i) v short,
    )

-- A reader of decimal numerals takes what is printed for a number of at most 64 bits back to the
-- number, without its sign.
pub value-printed : (n : ℕ) → n < 2 ^ 64 → value (printed (pos n)) ≡ n
unfolding value_from decimal
value-printed n h = elim (Bool-cases (n == 0)) [
  | inl nothing ↦ rw nothing (ground arith)
  | inr something ↦ rw something (value-decimal n h)
]
