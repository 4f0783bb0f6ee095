-- ===== src/AsyncLogging/Held.antt =====
-- The bytes that wait in the buffers, and when the buffers are in order.
use echo_server.Prelude.{
  ℕ, zero, suc, ◌+◌, ◌≡◌, ◌<◌, ◌^◌, refl, sym, ap, ◌∙◌, true, List, [], ◌∷◌, ◌++◌, append-nil,
  append_assoc, Option, none, some, arith, if◌then◌else◌, ltb, ltb→lt, lt→ltb, length, take,
}
use echo_server.FixedBuffer
use echo_server.FixedBuffer.{FixedBuffer, valid}
use echo_server.FixedBuffer.Contents.{
  IsValid, contents, fits, init-IsValid, append-whole, fits-valid,
}
use echo_server.AsyncLogging.{AsyncLogging, Backend, init, init_backend, spare, bytes_of}

-- What waits for the thread.
abbrev pub held : AsyncLogging → List ℕ
held l = bytes_of l.buffers ++ contents l.current

-- A line that is no shorter than a buffer is dropped.
abbrev pub kept_line : ℕ → List ℕ → List ℕ
kept_line size line = if ltb (length line) size then line else []

abbrev pub AllValid : ℕ → List FixedBuffer → Type 0
AllValid size [] = Unit {0}
AllValid size (b ∷ bs) = IsValid size b × AllValid size bs

abbrev pub Fresh : ℕ → FixedBuffer → Type 0
Fresh size b = IsValid size b × (b.used ≡ 0)

-- The spare buffer is empty, and when it is taken some full buffer waits.
abbrev pub Ready : ℕ → List FixedBuffer → Option FixedBuffer → Type 0
Ready size bs none = 0 < length bs
Ready size bs (some n) = Fresh size n

pub record Inv (size : ℕ) (l : AsyncLogging) (b : Backend) : Type 0 where
  pub current_valid : IsValid size l.current
  pub buffers_valid : AllValid size l.buffers
  pub next_ready : Ready size l.buffers l.next
  pub first_fresh : Fresh size b.new_buffer1
  pub second_fresh : Fresh size b.new_buffer2

pub init-Fresh : (size : ℕ) → 0 < size → size < 2 ^ 31 → Fresh size (FixedBuffer.init size)
unfolding FixedBuffer.init
init-Fresh size h k = (init-IsValid size h k, refl)

pub init-Inv : (size : ℕ) → 0 < size → size < 2 ^ 31 → Inv size (init size) (init_backend size)
unfolding init init_backend
init-Inv size h k =
    let f = init-Fresh size h k in
    record {
      current_valid = f.0;
      buffers_valid = tt;
      next_ready = f;
      first_fresh = f;
      second_fresh = f;
    }

pub bytes_of-append : (xs ys : List FixedBuffer) → bytes_of (xs ++ ys) ≡ bytes_of xs ++ bytes_of ys
unfolding bytes_of
bytes_of-append [] ys = refl
bytes_of-append (x ∷ xs) ys =
    ap (◌++◌ (contents x)) (bytes_of-append xs ys)
    ∙ sym (append_assoc (contents x) (bytes_of xs) (bytes_of ys))

pub bytes_of-snoc :
    (xs : List FixedBuffer) (b : FixedBuffer) → bytes_of (xs ++ b ∷ []) ≡ bytes_of xs ++ contents b
unfolding bytes_of
bytes_of-snoc xs b = bytes_of-append xs (b ∷ []) ∙ ap (◌++◌ (bytes_of xs)) (append-nil (contents b))

pub AllValid-snoc :
    (size : ℕ) (xs : List FixedBuffer) (b : FixedBuffer)
    → AllValid size xs
    → IsValid size b
    → AllValid size (xs ++ b ∷ [])
AllValid-snoc size [] b v w = (w, tt)
AllValid-snoc size (x ∷ xs) b (v, vs) w = (v, AllValid-snoc size xs b vs w)

pub AllValid-take :
    (size n : ℕ) (xs : List FixedBuffer) → AllValid size xs → AllValid size (take n xs)
AllValid-take size zero xs v = tt
AllValid-take size (suc n) [] v = tt
AllValid-take size (suc n) (x ∷ xs) (v, vs) = (v, AllValid-take size n xs vs)

-- Any line that is kept fits into an empty buffer.
pub append-Fresh :
    (size : ℕ) (b : FixedBuffer) (line : List ℕ)
    → Fresh size b
    → contents (FixedBuffer.append size b line) ≡ kept_line size line
append-Fresh size b line (v, e) =
    let same : fits size b line ≡ ltb (length line) size = ap (λ n. ltb n size) (omega arith) in
    append-whole size line v ∙ rw (same, e) refl

pub spare-Fresh :
    (size : ℕ) (bs : List FixedBuffer) (n : Option FixedBuffer)
    → 0 < size
    → size < 2 ^ 31
    → Ready size bs n
    → Fresh size (spare size n)
unfolding spare
spare-Fresh size bs none h k r = init-Fresh size h k
spare-Fresh size bs (some n) h k r = r

pub append-fits :
    (size : ℕ) (b : FixedBuffer) (line : List ℕ)
    → IsValid size b
    → valid size b (length line) ≡ true
    → contents (FixedBuffer.append size b line) ≡ contents b ++ kept_line size line
append-fits size b line v room =
    let fit = sym (fits-valid size b line v) ∙ room in
    let lt = ltb→lt (b.used + length line) size fit in
    let short : ltb (length line) size ≡ true = lt→ltb (length line) size (omega arith) in
    append-whole size line v ∙ rw (fit, short) refl
