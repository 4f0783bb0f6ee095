-- ===== src/TcpServer/Names.antt =====
-- The names of connections: when two of them are equal.
use echo_server.Prelude.{
  ℕ, ◌^◌, ◌≤◌, ◌<◌, ◌≡◌, ◌↔◌, refl, sym, ap, ◌∙◌, inl, inr, true, [], ◌∷◌, ◌++◌, arith, Bool-cases,
  length, length-append, take-all, drop, ==-refl, ◌==◌, ℕ_discrete,
}
use echo_server.Decimal.{decimal, decimal-injective, length-decimal}
use echo_server.TcpServer.{Text, text_eq, suffix}

pub text_eq_sound : (xs ys : Text) → text_eq xs ys ≡ true → xs ≡ ys
unfolding text_eq
text_eq_sound [] [] h = refl
text_eq_sound [] (y ∷ ys) h = cc
text_eq_sound (x ∷ xs) [] h = cc
text_eq_sound (x ∷ xs) (y ∷ ys) h = ground (arith, text_eq_sound xs ys)

text_eq_refl : (xs : Text) → text_eq xs xs ≡ true
unfolding text_eq
text_eq_refl [] = refl
text_eq_refl (x ∷ xs) = rw (==-refl x) (text_eq_refl xs)

pub text_eq_iff : (xs ys : Text) → (text_eq xs ys ≡ true) ↔ (xs ≡ ys)
text_eq_iff xs ys = (text_eq_sound xs ys, λ e. rw e (text_eq_refl ys))

pub append_cancel : (xs : Text) {ys zs : Text} → xs ++ ys ≡ xs ++ zs → ys ≡ zs
append_cancel [] e = e
append_cancel (x ∷ xs) e = append_cancel xs (ap (drop 1) e)

-- An address and a port are at most 21 characters, so nothing of a suffix is cut off.
suffix-eq : (ip : Text) (i : ℕ) → length ip ≤ 21 → suffix ip i ≡ b'-' ∷ ip ++ b'#' ∷ decimal i
unfolding suffix
suffix-eq ip i h =
    take-all 63 (b'-' ∷ ip ++ b'#' ∷ decimal i)
      (omega (arith, length-append (b'-' ∷ ip) (b'#' ∷ decimal i), length-decimal i))

pub suffix-injective :
    (ip : Text) (i j : ℕ)
    → length ip ≤ 21
    → i < 2 ^ 31
    → j < 2 ^ 31
    → suffix ip i ≡ suffix ip j
    → i ≡ j
suffix-injective ip i j h hi hj e =
    let e' = sym (suffix-eq ip i h) ∙ e ∙ suffix-eq ip j h in
    decimal-injective i j (omega arith) (omega arith) (ap (drop 1) (append_cancel (b'-' ∷ ip) e'))

-- Two names of one server are equal exactly when their numbers are.
pub name_eq :
    (name ip : Text) (i j : ℕ)
    → length ip ≤ 21
    → i < 2 ^ 31
    → j < 2 ^ 31
    → text_eq (name ++ suffix ip i) (name ++ suffix ip j) ≡ (i == j)
name_eq name ip i j h hi hj = elim (ℕ_discrete i j) [
  | yes same ↦ rw (same, ==-refl j) (text_eq_refl (name ++ suffix ip j))
  | no other ↦ elim (Bool-cases (text_eq (name ++ suffix ip i) (name ++ suffix ip j))) [
    | inl clash ↦
        let e = text_eq_sound (name ++ suffix ip i) (name ++ suffix ip j) clash in
        absurd (other (suffix-injective ip i j h hi hj (append_cancel name e)))
    | inr differ ↦ differ ∙ ground (arith, other)
  ]
]
