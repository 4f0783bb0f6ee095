-- ===== src/Decimal/Padded.antt =====
-- Numerals of a least width, as `%4d` and `%02d` print them.
use native.Mathlib.Nat.{pow-suc}
use echo_server.Prelude.{
  ℕ, zero, suc, ◌+◌, ◌-◌, ◌/◌, ◌%◌, ◌^◌, ◌≤◌, ◌<◌, ◌≡◌, refl, ap, ◌∙◌, inl, inr, List, [], ◌∷◌,
  ◌++◌, arith, ltb, Bool-cases, length, length-append, replicate, length-replicate,
}
use echo_server.Decimal.{digits, decimal, value, value_from, value_from-append, value-decimal}

-- `fill` stands in front of the numeral.
unfoldable pub padded : ℕ → ℕ → ℕ → List ℕ
padded fill width n = replicate (width - length (decimal n)) fill ++ decimal n

length-digits-le : (fuel width n : ℕ) → n < 10 ^ suc width → length (digits fuel n) ≤ suc width
unfolding digits
length-digits-le zero width n h = omega arith
length-digits-le (suc fuel) zero n h = ground arith
length-digits-le (suc fuel) (suc width) n h = elim (Bool-cases (ltb n 10)) [
  | inl small ↦ rw small (omega arith)
  | inr big ↦
      let ih = length-digits-le fuel width (n / 10) (omega (arith, pow-suc 10 (suc width))) in
      rw big (omega (arith, length-append (digits fuel (n / 10)) ((48 + n % 10) ∷ []), ih))
]

-- A number below the width's power of ten fills exactly the width.
pub length-padded :
    (fill width n : ℕ) → n < 10 ^ suc width → length (padded fill (suc width) n) ≡ suc width
unfolding padded decimal
length-padded fill width n h = omega (
  arith,
  length-append (replicate (suc width - length (decimal n)) fill) (decimal n),
  length-replicate (suc width - length (decimal n)) fill,
  length-digits-le 20 width n h,
)

value_from-zeros : (k : ℕ) → value_from 0 (replicate k 48) ≡ 0
unfolding value_from
value_from-zeros zero = refl
value_from-zeros (suc k) = value_from-zeros k

-- Zeros in front do not change what a reader takes.
pub value-padded : (width n : ℕ) → n < 2 ^ 64 → value (padded 48 width n) ≡ n
unfolding padded
value-padded width n h =
    let zeros = replicate (width - length (decimal n)) 48 in
    value_from-append 0 zeros (decimal n)
    ∙ ap (λ k. value_from k (decimal n)) (value_from-zeros (width - length (decimal n)))
    ∙ value-decimal n h

pub length-decimal-le : (width n : ℕ) → n < 10 ^ suc width → length (decimal n) ≤ suc width
unfolding decimal
length-decimal-le width n h = length-digits-le 20 width n h
