-- ===== src/Prelude/Lists.antt =====
-- Lists measured and indexed by native numbers, and arrays as lists that are written in place.
use Prim.Native.Nat.{ℕ, zero, suc, ◌+◌, ◌-◌, ◌≤◌, ◌<◌, min}
use mathlib.Core.Path.{◌≡◌, refl, ap, ◌∙◌}
use mathlib.Core.Logic.{◌≢◌}
use mathlib.Core.List.{List, [], ◌∷◌, ◌++◌}
use mathlib.Core.Option.{Option, none, some}
use native.Mathlib.Omega.{arith}

module _ {ℓ} {A : Type ℓ} where
  abbrev pub length : List A → ℕ
  length [] = 0
  length (x ∷ xs) = suc (length xs)

  abbrev pub get_elem? : List A → ℕ → Option A
  get_elem? [] i = none
  get_elem? (x ∷ xs) zero = some x
  get_elem? (x ∷ xs) (suc i) = get_elem? xs i

  abbrev pub take : ℕ → List A → List A
  take zero xs = []
  take (suc n) [] = []
  take (suc n) (x ∷ xs) = x ∷ take n xs

  abbrev pub drop : ℕ → List A → List A
  drop zero xs = xs
  drop (suc n) [] = []
  drop (suc n) (x ∷ xs) = drop n xs

  abbrev pub replicate : ℕ → A → List A
  replicate zero a = []
  replicate (suc n) a = a ∷ replicate n a

  -- The `n` elements from index `i` on.
  abbrev pub slice : List A → ℕ → ℕ → List A
  slice xs i n = take n (drop i xs)

  -- Copies a list into an array from index `i` on. What would fall outside is not written.
  abbrev pub overwrite : List A → ℕ → List A → List A
  overwrite [] i src = []
  overwrite (x ∷ xs) zero [] = x ∷ xs
  overwrite (x ∷ xs) zero (s ∷ src) = s ∷ overwrite xs zero src
  overwrite (x ∷ xs) (suc i) src = x ∷ overwrite xs i src

pub drop-nil {ℓ} : (A : Type ℓ) (n : ℕ) → drop {A = A} n [] ≡ []
drop-nil A zero = refl
drop-nil A (suc n) = refl

pub take-nil {ℓ} : (A : Type ℓ) (n : ℕ) → take {A = A} n [] ≡ []
take-nil A zero = refl
take-nil A (suc n) = refl

module _ {ℓ} {A : Type ℓ} where
  pub length-append : (xs ys : List A) → length (xs ++ ys) ≡ length xs + length ys
  length-append [] ys = omega arith
  length-append (x ∷ xs) ys = omega (arith, length-append xs ys)

  pub length-take : (n : ℕ) (xs : List A) → length (take n xs) ≡ min n (length xs)
  length-take zero xs = omega arith
  length-take (suc n) [] = omega arith
  length-take (suc n) (x ∷ xs) = omega (arith, length-take n xs)

  pub length-drop : (n : ℕ) (xs : List A) → length (drop n xs) ≡ length xs - n
  length-drop zero xs = omega arith
  length-drop (suc n) [] = omega arith
  length-drop (suc n) (x ∷ xs) = omega (arith, length-drop n xs)

  pub length-replicate : (n : ℕ) (a : A) → length (replicate n a) ≡ n
  length-replicate zero a = refl
  length-replicate (suc n) a = ap suc (length-replicate n a)

  pub length-slice : (xs : List A) (i n : ℕ) → i + n ≤ length xs → length (slice xs i n) ≡ n
  length-slice xs i n h = omega (arith, length-take n (drop i xs), length-drop i xs)

  pub length-overwrite :
      (xs : List A) (i : ℕ) (src : List A) → length (overwrite xs i src) ≡ length xs
  length-overwrite [] i src = refl
  length-overwrite (x ∷ xs) zero [] = refl
  length-overwrite (x ∷ xs) zero (s ∷ src) = ap suc (length-overwrite xs zero src)
  length-overwrite (x ∷ xs) (suc i) src = ap suc (length-overwrite xs i src)

  pub take-append-drop : (n : ℕ) (xs : List A) → take n xs ++ drop n xs ≡ xs
  take-append-drop zero xs = refl
  take-append-drop (suc n) [] = refl
  take-append-drop (suc n) (x ∷ xs) = ap (◌∷◌ x) (take-append-drop n xs)

  pub take-all : (n : ℕ) (xs : List A) → length xs ≤ n → take n xs ≡ xs
  take-all zero [] h = refl
  take-all zero (x ∷ xs) h = absurd (omega arith)
  take-all (suc n) [] h = refl
  take-all (suc n) (x ∷ xs) h = ap (◌∷◌ x) (take-all n xs (omega arith))

  pub drop-all : (n : ℕ) (xs : List A) → length xs ≤ n → drop n xs ≡ []
  drop-all zero [] h = refl
  drop-all zero (x ∷ xs) h = absurd (omega arith)
  drop-all (suc n) [] h = refl
  drop-all (suc n) (x ∷ xs) h = drop-all n xs (omega arith)

  pub take-append : (xs ys : List A) (n : ℕ) → n ≤ length xs → take n (xs ++ ys) ≡ take n xs
  take-append xs ys zero h = refl
  take-append [] ys (suc n) h = absurd (omega arith)
  take-append (x ∷ xs) ys (suc n) h = ap (◌∷◌ x) (take-append xs ys n (omega arith))

  pub take-append_length : (xs ys : List A) (n : ℕ) → n ≡ length xs → take n (xs ++ ys) ≡ xs
  take-append_length [] ys zero h = refl
  take-append_length [] ys (suc n) h = absurd (omega arith)
  take-append_length (x ∷ xs) ys zero h = absurd (omega arith)
  take-append_length (x ∷ xs) ys (suc n) h = ap (◌∷◌ x) (take-append_length xs ys n (omega arith))

  pub drop-append_le :
      (xs ys : List A) (n : ℕ) → n ≤ length xs → drop n (xs ++ ys) ≡ drop n xs ++ ys
  drop-append_le xs ys zero h = refl
  drop-append_le [] ys (suc n) h = absurd (omega arith)
  drop-append_le (x ∷ xs) ys (suc n) h = drop-append_le xs ys n (omega arith)

  pub drop-drop : (m n : ℕ) (xs : List A) → drop n (drop m xs) ≡ drop (m + n) xs
  drop-drop zero n xs = let e : 0 + n ≡ n = omega arith in rw e
  drop-drop (suc m) n [] = rw (drop-nil A n, drop-nil A (suc m + n))
  drop-drop (suc m) n (x ∷ xs) =
      let e : suc m + n ≡ suc (m + n) = omega arith in rw e (drop-drop m n xs)

  pub drop-take : (m n : ℕ) (xs : List A) → drop m (take (m + n) xs) ≡ take n (drop m xs)
  drop-take zero n xs = let e : 0 + n ≡ n = omega arith in rw e
  drop-take (suc m) n [] = rw (take-nil A (suc m + n), take-nil A n)
  drop-take (suc m) n (x ∷ xs) =
      let e : suc m + n ≡ suc (m + n) = omega arith in rw e (drop-take m n xs)

  -- What is written is read back.
  pub slice-overwrite_self :
      (xs : List A) (i : ℕ) (src : List A)
      → i + length src ≤ length xs
      → slice (overwrite xs i src) i (length src) ≡ src
  slice-overwrite_self [] zero [] h = refl
  slice-overwrite_self [] zero (s ∷ src) h = absurd (omega arith)
  slice-overwrite_self [] (suc i) src h = absurd (omega arith)
  slice-overwrite_self (x ∷ xs) zero [] h = refl
  slice-overwrite_self (x ∷ xs) zero (s ∷ src) h =
      ap (◌∷◌ s) (slice-overwrite_self xs zero src (omega arith))
  slice-overwrite_self (x ∷ xs) (suc i) src h = slice-overwrite_self xs i src (omega arith)

  -- A write just behind the first `n` elements adds to them.
  pub take-overwrite :
      (xs : List A) (n : ℕ) (src : List A)
      → n + length src ≤ length xs
      → take (n + length src) (overwrite xs n src) ≡ take n xs ++ src
  take-overwrite xs zero src h =
      let e : 0 + length src ≡ length src = omega arith in rw e (slice-overwrite_self xs zero src h)
  take-overwrite [] (suc n) src h = absurd (omega arith)
  take-overwrite (x ∷ xs) (suc n) src h =
      let e : suc n + length src ≡ suc (n + length src) = omega arith in
      rw e (ap (◌∷◌ x) (take-overwrite xs n src (omega arith)))

  -- The same of the elements from index `r` on.
  pub slice-overwrite :
      (xs : List A) (r n : ℕ) (src : List A)
      → r + n + length src ≤ length xs
      → slice (overwrite xs (r + n) src) r (n + length src) ≡ slice xs r n ++ src
  slice-overwrite xs zero n src h =
      let e : 0 + n ≡ n = omega arith in rw e (take-overwrite xs n src (omega arith))
  slice-overwrite [] (suc r) n src h = absurd (omega arith)
  slice-overwrite (x ∷ xs) (suc r) n src h =
      let e : suc r + n ≡ suc (r + n) = omega arith in
      rw e (slice-overwrite xs r n src (omega arith))

  -- A write behind a slice leaves it alone.
  pub take-overwrite_below :
      (xs : List A) (n i : ℕ) (src : List A) → n ≤ i → take n (overwrite xs i src) ≡ take n xs
  take-overwrite_below xs zero i src h = refl
  take-overwrite_below [] (suc n) i src h = refl
  take-overwrite_below (x ∷ xs) (suc n) zero src h = absurd (omega arith)
  take-overwrite_below (x ∷ xs) (suc n) (suc i) src h =
      ap (◌∷◌ x) (take-overwrite_below xs n i src (omega arith))

  pub drop-overwrite :
      (xs : List A) (i : ℕ) (src : List A)
      → drop (i + length src) (overwrite xs i src) ≡ drop (i + length src) xs
  drop-overwrite [] i src = refl
  drop-overwrite (x ∷ xs) zero [] = refl
  drop-overwrite (x ∷ xs) zero (s ∷ src) =
      let e : 0 + suc (length src) ≡ suc (0 + length src) = omega arith in
      rw e (drop-overwrite xs zero src)
  drop-overwrite (x ∷ xs) (suc i) src =
      let e : suc i + length src ≡ suc (i + length src) = omega arith in
      rw e (drop-overwrite xs i src)

  pub slice-append :
      (xs ys : List A) (i n : ℕ) → i + n ≤ length xs → slice (xs ++ ys) i n ≡ slice xs i n
  slice-append xs ys i n h =
      rw (drop-append_le xs ys i (omega arith))
        (take-append (drop i xs) ys n (omega (arith, length-drop i xs)))

  -- A slice without its first elements.
  pub drop-slice :
      (xs : List A) (r n len : ℕ) → len ≤ n → drop len (slice xs r n) ≡ slice xs (r + len) (n - len)
  drop-slice xs r n len h =
      let e : n ≡ len + (n - len) = omega arith in
      ap (λ k. drop len (take k (drop r xs))) e
      ∙ drop-take len (n - len) (drop r xs)
      ∙ ap (take (n - len)) (drop-drop r len xs)

  pub slice-overwrite_below :
      (xs : List A) (r n i : ℕ) (src : List A)
      → r + n ≤ i
      → slice (overwrite xs i src) r n ≡ slice xs r n
  slice-overwrite_below xs zero n i src h = take-overwrite_below xs n i src (omega arith)
  slice-overwrite_below [] (suc r) n i src h = refl
  slice-overwrite_below (x ∷ xs) (suc r) n zero src h = absurd (omega arith)
  slice-overwrite_below (x ∷ xs) (suc r) n (suc i) src h =
      slice-overwrite_below xs r n i src (omega arith)

  pub drop-replicate : (k n : ℕ) (a : A) → drop k (replicate (k + n) a) ≡ replicate n a
  drop-replicate zero n a = let e : 0 + n ≡ n = omega arith in rw e
  drop-replicate (suc k) n a =
      let e : suc k + n ≡ suc (k + n) = omega arith in rw e (drop-replicate k n a)

  pub length-pos : (xs : List A) → xs ≢ [] → 0 < length xs
  length-pos [] h = absurd (h refl)
  length-pos (x ∷ xs) h = omega arith

  pub length-eq-zero : (xs : List A) → length xs ≡ 0 → xs ≡ []
  length-eq-zero [] h = refl
  length-eq-zero (x ∷ xs) h = absurd (omega arith)
