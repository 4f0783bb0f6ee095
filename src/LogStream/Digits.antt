-- ===== src/LogStream/Digits.antt =====
-- The digits of `formatInteger` are those of the decimal numeral, for numbers of both signs.
use native.Mathlib.Nat.{pow-suc}
use echo_server.Prelude.{
  ℕ, zero, suc, ◌+◌, ◌/◌, ◌%◌, ◌^◌, ◌<◌, ◌≡◌, refl, ap, ◌∙◌, inl, inr, false, List, [], ◌∷◌, ◌++◌,
  some, arith, if◌then◌else◌, ltb, ◌==◌, Bool-cases, ltb→lt, ltb-false→le,
}
use echo_server.Decimal.{digits}
use echo_server.LogStream.{
  ℤ, pos, negsuc, negate, quot10, rem10, is_zero, char_at, back_digits, reverse,
}

-- The number without its sign.
abbrev pub mag : ℤ → ℕ
mag (pos n) = n
mag (negsuc n) = n + 1

-- Zero is printed as nothing.
abbrev pub text_of : ℕ → ℕ → List ℕ
text_of fuel n = if n == 0 then [] else digits fuel n

char_at-pos : (r : ℕ) → r < 10 → char_at (pos r) ≡ some (48 + r)
unfolding char_at
char_at-pos zero h = refl
char_at-pos (suc zero) h = refl
char_at-pos (suc (suc zero)) h = refl
char_at-pos (suc (suc (suc zero))) h = refl
char_at-pos (suc (suc (suc (suc zero)))) h = refl
char_at-pos (suc (suc (suc (suc (suc zero))))) h = refl
char_at-pos (suc (suc (suc (suc (suc (suc zero)))))) h = refl
char_at-pos (suc (suc (suc (suc (suc (suc (suc zero))))))) h = refl
char_at-pos (suc (suc (suc (suc (suc (suc (suc (suc zero)))))))) h = refl
char_at-pos (suc (suc (suc (suc (suc (suc (suc (suc (suc zero))))))))) h = refl
char_at-pos (suc (suc (suc (suc (suc (suc (suc (suc (suc (suc r)))))))))) h = absurd (omega arith)

char_at-negate : (r : ℕ) → r < 10 → char_at (negate r) ≡ some (48 + r)
unfolding char_at negate
char_at-negate zero h = refl
char_at-negate (suc zero) h = refl
char_at-negate (suc (suc zero)) h = refl
char_at-negate (suc (suc (suc zero))) h = refl
char_at-negate (suc (suc (suc (suc zero)))) h = refl
char_at-negate (suc (suc (suc (suc (suc zero))))) h = refl
char_at-negate (suc (suc (suc (suc (suc (suc zero)))))) h = refl
char_at-negate (suc (suc (suc (suc (suc (suc (suc zero))))))) h = refl
char_at-negate (suc (suc (suc (suc (suc (suc (suc (suc zero)))))))) h = refl
char_at-negate (suc (suc (suc (suc (suc (suc (suc (suc (suc zero))))))))) h = refl
char_at-negate (suc (suc (suc (suc (suc (suc (suc (suc (suc (suc r)))))))))) h =
    absurd (omega arith)

char_at-rem10 : (i : ℤ) → char_at (rem10 i) ≡ some (48 + mag i % 10)
unfolding rem10
char_at-rem10 (pos n) = char_at-pos (n % 10) (omega arith)
char_at-rem10 (negsuc n) = char_at-negate ((n + 1) % 10) (omega arith)

mag-negate : (n : ℕ) → mag (negate n) ≡ n
unfolding negate
mag-negate zero = refl
mag-negate (suc n) = omega arith

mag-quot10 : (i : ℤ) → mag (quot10 i) ≡ mag i / 10
unfolding quot10
mag-quot10 (pos n) = refl
mag-quot10 (negsuc n) = mag-negate ((n + 1) / 10)

is_zero-mag : (i : ℤ) → is_zero i ≡ (mag i == 0)
is_zero-mag (pos n) = refl
is_zero-mag (negsuc n) = ground arith

-- One more digit behind those of the tenth.
digits-step :
    (fuel n : ℕ)
    → (n == 0) ≡ false
    → text_of fuel (n / 10) ++ (48 + n % 10) ∷ [] ≡ digits (suc fuel) n
unfolding digits
digits-step fuel n h = elim (Bool-cases (ltb n 10)) [
  | inl small ↦
      let lt = ltb→lt n 10 small in
      let q : n / 10 ≡ 0 = omega arith in let r : n % 10 ≡ n = omega arith in rw (q, r, small) refl
  | inr big ↦
      let le = ltb-false→le n 10 big in
      let q : (n / 10 == 0) ≡ false = ground arith in rw (q, big) refl
]

pub back_digits_lem :
    (fuel : ℕ) (i : ℤ)
    → mag i < 10 ^ fuel
    → (ds : List ℕ) × (back_digits fuel i ≡ some ds) × (reverse ds ≡ text_of fuel (mag i))
unfolding back_digits
back_digits_lem zero (pos zero) h = ([], refl, refl)
back_digits_lem zero (pos (suc n)) h = absurd (omega arith)
back_digits_lem zero (negsuc n) h = absurd (omega arith)
back_digits_lem (suc fuel) i h = elim (Bool-cases (mag i == 0)) [
  | inl none_left ↦ ([], rw (is_zero-mag i ∙ none_left) refl, rw none_left refl)
  | inr some_left ↦
      let (ds, e, f) =
        back_digits_lem fuel (quot10 i) (omega (arith, pow-suc 10 fuel, mag-quot10 i)) in
      (
        (48 + mag i % 10) ∷ ds,
        rw (is_zero-mag i ∙ some_left) (rw (char_at-rem10 i) (rw e refl)),
        ap (λ xs. xs ++ (48 + mag i % 10) ∷ []) (f ∙ ap (text_of fuel) (mag-quot10 i))
            ∙ digits-step fuel (mag i) some_left
            ∙ rw some_left refl,
      )
]
