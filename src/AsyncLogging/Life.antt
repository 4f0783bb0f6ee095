-- ===== src/AsyncLogging/Life.antt =====
-- The lines and the rounds of a log from its start on.
use echo_server.Prelude.{
  ℕ, ◌≡◌, ◌<◌, ◌^◌, refl, sym, ap, ◌∙◌, List, [], ◌∷◌, ◌++◌, append-nil, append_assoc, Option, some,
}
use echo_server.FixedBuffer
use echo_server.FixedBuffer.{FixedBuffer, valid}
use echo_server.AsyncLogging.{
  AsyncLogging, Backend, init, init_backend, start, stop, append, bytes_of, round,
}
use echo_server.AsyncLogging.Held.{held, kept_line, Inv, init-Inv}
use echo_server.AsyncLogging.Delivery.{append-held, Written, round-Written}

-- The log's life: lines and rounds in any order, also a round that is still under way when `stop`
-- is called. The last argument has all lines with which `append` was called, in order.
pub data Reach (size : ℕ) : AsyncLogging → Backend → List (List ℕ) → Type 0 where
  started : Reach size (start (init size)) (init_backend size) []
  logged :
      {l : AsyncLogging} {b : Backend} {lines : List (List ℕ)} (line : List ℕ)
      → Reach size l b lines
      → Reach size (append size line l) b (lines ++ line ∷ [])
  written :
      {l m : AsyncLogging} {b c : Backend} {lines : List (List ℕ)}
      → Reach size l b lines
      → round l b ≡ some (m, c)
      → Reach size m c lines
  stopped :
      {l : AsyncLogging} {b : Backend} {lines : List (List ℕ)}
      → Reach size l b lines
      → Reach size (stop l) b lines

-- The bytes of those lines that are shorter than a buffer.
abbrev pub kept : ℕ → List (List ℕ) → List ℕ
kept size [] = []
kept size (line ∷ lines) = kept_line size line ++ kept size lines

kept-snoc :
    (size : ℕ) (lines : List (List ℕ)) (line : List ℕ)
    → kept size (lines ++ line ∷ []) ≡ kept size lines ++ kept_line size line
kept-snoc size [] line = append-nil (kept_line size line)
kept-snoc size (x ∷ lines) line =
    ap (◌++◌ (kept_line size x)) (kept-snoc size lines line)
    ∙ sym (append_assoc (kept_line size x) (kept size lines) (kept_line size line))

same_result :
    (r : Option (AsyncLogging × Backend)) (m n : AsyncLogging) (c d : Backend)
    → r ≡ some (m, c)
    → r ≡ some (n, d)
    → (m ≡ n) × (c ≡ d)
same_result r m n c d e f = (cc, cc)

start-Delivered :
    (size : ℕ)
    → 0 < size
    → size < 2 ^ 31
    → Inv size (start (init size)) (init_backend size)
      × ((init_backend size).output ++ held (start (init size)) ≡ [])
unfolding start init init_backend bytes_of FixedBuffer.init
start-Delivered size h k =
    let v = init-Inv size h k in
    (
      record {
        current_valid = v.current_valid;
        buffers_valid = v.buffers_valid;
        next_ready = v.next_ready;
        first_fresh = v.first_fresh;
        second_fresh = v.second_fresh;
      },
      refl,
    )

stop-Delivered :
    (size : ℕ) (l : AsyncLogging) (b : Backend) (xs : List ℕ)
    → Inv size l b × (b.output ++ held l ≡ xs)
    → Inv size (stop l) b × (b.output ++ held (stop l) ≡ xs)
unfolding stop
stop-Delivered size l b xs (v, e) = (
  record {
    current_valid = v.current_valid;
    buffers_valid = v.buffers_valid;
    next_ready = v.next_ready;
    first_fresh = v.first_fresh;
    second_fresh = v.second_fresh;
  },
  e,
)

-- With buffers of between 1 and 2^31 - 1 bytes, however lines and rounds follow each other, the
-- buffers are in order. What was handed to the file, and then what waits, is the logged lines that
-- are shorter than a buffer, each whole and once, in order; a line that is no shorter than a buffer
-- is dropped, and none of its bytes is there.
pub Reach-Delivered :
    {size : ℕ} {l : AsyncLogging} {b : Backend} {lines : List (List ℕ)}
    → 0 < size
    → size < 2 ^ 31
    → Reach size l b lines
    → Inv size l b × (b.output ++ held l ≡ kept size lines)
Reach-Delivered {size} h k started = start-Delivered size h k
Reach-Delivered {size} h k (logged {l} {b} {lines} line r) =
    let (v, e) = Reach-Delivered h k r in
    let (w, f) = append-held size line l b h k v in
    (
      w,
      ap (◌++◌ b.output) f
          ∙ sym (append_assoc b.output (held l) (kept_line size line))
          ∙ ap (λ ys. ys ++ kept_line size line) e
          ∙ sym (kept-snoc size lines line),
    )
Reach-Delivered {size} h k (written {l} {m} {b} {c} {lines} r e) =
    let (v, d) = Reach-Delivered h k r in
    let (n, x, f, w) = round-Written size l b v in
    let (en, ex) = same_result (round l b) n m x c f e in
    let q : Written size l b m c = rw (sym en, sym ex) w in
    (q.in_order, ap (◌++◌ c.output) q.nothing_waits ∙ append-nil c.output ∙ q.output_is ∙ d)
Reach-Delivered {size} h k (stopped {l} {b} {lines} r) =
    stop-Delivered size l b (kept size lines) (Reach-Delivered h k r)
