-- ===== src/FixedBuffer/Contents.antt =====
-- A fixed buffer never overruns its array, and takes a piece of data whole or not at all.
use echo_server.Prelude.{
  ℕ, ◌+◌, ◌^◌, ◌<◌, ◌≡◌, refl, ap, ◌∙◌, inl, inr, Bool, List, [], ◌++◌, arith, if◌then◌else◌, ltb,
  ltb→lt, Bool-cases, length, take, overwrite, take-overwrite, length-overwrite, length-replicate,
}
use echo_server.FixedBuffer.{FixedBuffer, init, valid, append, reset}

-- There is always a byte left behind the data.
pub record IsValid (size : ℕ) (b : FixedBuffer) : Type 0 where
  pub array : length b.bytes ≡ size
  pub cursor : b.cur ≡ b.used
  pub room : b.used < size
  pub small : size < 2 ^ 31

abbrev pub contents : FixedBuffer → List ℕ
contents b = take b.used b.bytes

pub init-IsValid : (size : ℕ) → 0 < size → size < 2 ^ 31 → IsValid size (init size)
unfolding init
init-IsValid size h k = omega (arith, length-replicate {A = ℕ} size 0)

pub reset-IsValid : (size : ℕ) {b : FixedBuffer} → IsValid size b → IsValid size (reset b)
unfolding reset
reset-IsValid size v = ground arith

pub contents-reset : (b : FixedBuffer) → contents (reset b) ≡ []
unfolding reset
contents-reset b = refl

-- What fits.
abbrev pub fits : ℕ → FixedBuffer → List ℕ → Bool
fits size b src = ltb (b.used + length src) size

pub fits-valid :
    (size : ℕ) (b : FixedBuffer) (src : List ℕ)
    → IsValid size b
    → valid size b (length src) ≡ fits size b src
fits-valid size b src v = ground arith

-- Appending writes inside the array only, and leaves a byte behind the data.
pub append-IsValid :
    (size : ℕ) {b : FixedBuffer} (src : List ℕ) → IsValid size b → IsValid size (append size b src)
unfolding append
append-IsValid size {b} src v = ground (arith, length-overwrite b.bytes b.cur src)

-- Data that fits with a byte to spare is added whole behind the data that is there; other data is
-- dropped whole, and the buffer stays as it was.
pub append-whole :
    (size : ℕ) {b : FixedBuffer} (src : List ℕ)
    → IsValid size b
    → contents (append size b src) ≡ (if fits size b src then contents b ++ src else contents b)
unfolding append
append-whole size {b} src v =
    let yes = fits-valid size b src v in
    elim (Bool-cases (fits size b src)) [
      | inl yes_fits ↦
          let fit = ltb→lt (b.used + length src) size yes_fits in
          rw (yes, yes_fits, v.cursor)
            (ap (λ n. take n (overwrite b.bytes b.used src)) (omega arith)
              ∙ take-overwrite b.bytes b.used src (omega arith))
      | inr full ↦ rw (yes, full)
    ]
