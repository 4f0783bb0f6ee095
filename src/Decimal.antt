-- ===== src/Decimal.antt =====
-- Decimal numerals as text: what `%d` and `%u` of `printf` print for a number that is not negative,
-- and how a reader takes them.
pub mod Padded
use native.Mathlib.Nat.{pow-suc}
use echo_server.Prelude.{
  ℕ, zero, suc, ◌+◌, ◌-◌, ◌*◌, ◌/◌, ◌%◌, ◌^◌, ◌≤◌, ◌<◌, ◌≡◌, refl, sym, ap, ◌∙◌, inl, inr, List, [],
  ◌∷◌, ◌++◌, arith, if◌then◌else◌, ltb, Bool-cases, length, length-append,
}

-- At most `fuel` digits.
unfoldable pub digits : ℕ → ℕ → List ℕ
digits zero n = []
digits (suc fuel) n =
    let rest = digits fuel (n / 10) in
    if ltb n 10 then (48 + n) ∷ [] else rest ++ (48 + n % 10) ∷ []

-- Twenty digits are enough for 64 bits.
unfoldable pub decimal : ℕ → List ℕ
unfolding digits
decimal n = digits 20 n

-- The number that a reader makes of digits, from the left.
unfoldable pub value_from : ℕ → List ℕ → ℕ
value_from acc [] = acc
value_from acc (d ∷ ds) = value_from (acc * 10 + (d - 48)) ds

abbrev pub value : List ℕ → ℕ
value ds = value_from 0 ds

pub value_from-append :
    (acc : ℕ) (xs ys : List ℕ) → value_from acc (xs ++ ys) ≡ value_from (value_from acc xs) ys
unfolding value_from
value_from-append acc [] ys = refl
value_from-append acc (x ∷ xs) ys = value_from-append (acc * 10 + (x - 48)) xs ys

-- One more digit at the end.
pub value-snoc : (ds : List ℕ) (d : ℕ) → d < 10 → value (ds ++ (48 + d) ∷ []) ≡ value ds * 10 + d
unfolding value_from
value-snoc ds d h = value_from-append 0 ds ((48 + d) ∷ []) ∙ omega arith

value-digit : (d : ℕ) → value ((48 + d) ∷ []) ≡ d
unfolding value_from
value-digit d = omega arith

value-nil : value [] ≡ 0
unfolding value_from
value-nil = refl

value-digits : (fuel n : ℕ) → n < 10 ^ fuel → value (digits fuel n) ≡ n
unfolding digits
value-digits zero n h = omega (arith, value-nil)
value-digits (suc fuel) n h = elim (Bool-cases (ltb n 10)) [
  | inl small ↦ rw small (value-digit n)
  | inr big ↦
      let ih = value-digits fuel (n / 10) (omega (arith, pow-suc 10 fuel)) in
      rw big (omega (arith, value-snoc (digits fuel (n / 10)) (n % 10) (omega arith), ih))
]

length-digits : (fuel n : ℕ) → length (digits fuel n) ≤ fuel
unfolding digits
length-digits zero n = omega arith
length-digits (suc fuel) n =
    ground (
      arith,
      length-digits fuel (n / 10),
      length-append (digits fuel (n / 10)) ((48 + n % 10) ∷ []),
    )

-- What is printed is read back, for every number of at most 64 bits.
pub value-decimal : (n : ℕ) → n < 2 ^ 64 → value (decimal n) ≡ n
unfolding decimal
value-decimal n h = value-digits 20 n (omega arith)

pub length-decimal : (n : ℕ) → length (decimal n) ≤ 20
unfolding decimal
length-decimal n = length-digits 20 n

pub decimal-injective : (m n : ℕ) → m < 2 ^ 64 → n < 2 ^ 64 → decimal m ≡ decimal n → m ≡ n
decimal-injective m n h k e = sym (value-decimal m h) ∙ ap value e ∙ value-decimal n k
