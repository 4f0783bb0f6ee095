-- ===== src/Thread/Names.antt =====
-- Threads made one after another without a name get different ones.
use echo_server.Prelude.{
  ℕ, ◌+◌, ◌^◌, ◌<◌, ◌≡◌, ◌≢◌, refl, sym, ap, ◌∙◌, [], ◌∷◌, arith, drop, take-all,
}
use echo_server.Decimal.{decimal, decimal-injective, length-decimal}
use echo_server.Thread.{init}

-- The name is the number of the thread, counted from one.
init_lem :
    (created : ℕ)
    → (init [] created).0.name ≡ b'T' ∷ b'h' ∷ b'r' ∷ b'e' ∷ b'a' ∷ b'd' ∷ decimal (created + 1)
unfolding init
init_lem created =
    take-all 31 (b'T' ∷ b'h' ∷ b'r' ∷ b'e' ∷ b'a' ∷ b'd' ∷ decimal (created + 1))
      (omega (arith, length-decimal (created + 1)))

-- Two threads that are made without a name at different counts, below 2^31, have different names;
-- and a thread that is made counts one more.
pub default_names_differ :
    (a b : ℕ)
    → a < 2 ^ 31
    → b < 2 ^ 31
    → a ≢ b
    → ((init [] a).0.name ≢ (init [] b).0.name) × ((init [] a).1 ≡ a + 1)
unfolding init
default_names_differ a b h k ne = (
  λ e.
      let same = sym (init_lem a) ∙ e ∙ init_lem b in
      ne (
        omega (
          arith,
          decimal-injective (a + 1) (b + 1) (omega arith) (omega arith) (ap (drop 6) same),
        )),
  refl,
)
