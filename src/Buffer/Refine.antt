-- ===== src/Buffer/Refine.antt =====
-- A buffer as the queue of its readable bytes.
use echo_server.Prelude.{
  ℕ, ◌+◌, ◌-◌, ◌^◌, ◌≤◌, ◌<◌, ◌≡◌, refl, sym, ap, ◌∙◌, List, [], ◌++◌, arith, inl, inr, Bool-cases,
  ltb, ltb→lt, ltb-false→le, le→ltb-false, length, drop, replicate, slice, overwrite, length-slice,
  slice-append, take-all, slice-overwrite, slice-overwrite_self, drop-slice, drop-all, add_size,
}
use echo_server.Buffer.{
  Buffer, init, readable_bytes, writable_bytes, spare_bytes, retrieve, resize,
  retrieve_all_as_string, make_space, ensure_writable_bytes, append,
}
use echo_server.Buffer.Invariant.{IsValid, HasRoom, readable-eq, ensure-HasRoom}

-- The bytes between the two indices.
abbrev pub contents : Buffer → List ℕ
contents b = slice b.storage b.reader_index (readable_bytes b)

pub length-contents : {b : Buffer} → IsValid b → length (contents b) ≡ readable_bytes b
length-contents {b} v =
    length-slice b.storage b.reader_index (readable_bytes b) (omega (arith, readable-eq v))

pub contents-init : (n : ℕ) → contents (init n) ≡ []
unfolding init
contents-init n = refl

cong_slice : (s : List ℕ) {i j m n : ℕ} → i ≡ j → m ≡ n → slice s i m ≡ slice s j n
cong_slice s p q = cc

-- What a buffer holds, with the index arithmetic carried out.
contents-eq :
    (s : List ℕ) (r w : ℕ)
    → r ≤ w
    → w < 2 ^ 64
    → contents (record { storage = s; reader_index = r; writer_index = w }) ≡ slice s r (w - r)
contents-eq s r w h k = ap (slice s r) (omega arith)

-- On a valid buffer `retrieve` drops bytes from the front; asking for as many as there are, or
-- more, empties it.
pub contents-retrieve :
    {b : Buffer} (len : ℕ) → IsValid b → contents (retrieve b len) ≡ drop len (contents b)
unfolding retrieve
contents-retrieve {b} len v = elim (Bool-cases (ltb len (readable_bytes b))) [
  | inl part ↦ rw part (
      contents-eq b.storage (add_size b.reader_index len) b.writer_index (ground arith)
        (omega arith)
      ∙ rw (contents-eq b.storage b.reader_index b.writer_index v.ordered (omega arith)) (
          rw
            (drop-slice b.storage b.reader_index (b.writer_index - b.reader_index) len
              (ground arith))
            (cong_slice b.storage (ground arith) (ground arith))))
  | inr rest ↦
      rw rest
        (sym (drop-all len (contents b) (omega (arith, length-contents v, ltb-false→le _ _ rest))))
]

-- `retrieveAllAsString` returns every readable byte, in order, and leaves the buffer empty.
pub retrieve_all_as_string_lem :
    (b : Buffer)
    → ((retrieve_all_as_string b).0 ≡ contents b) × (contents (retrieve_all_as_string b).1 ≡ [])
unfolding retrieve_all_as_string retrieve
retrieve_all_as_string_lem b =
    (refl, rw (le→ltb-false (readable_bytes b) (readable_bytes b) (omega arith)))

slice-resize :
    (s : List ℕ) (i m n : ℕ)
    → i + m ≤ length s
    → length s ≤ n
    → slice (resize s n) i m ≡ slice s i m
slice-resize s i m n h k = rw (take-all n s k) (slice-append s (replicate (n - length s) 0) i m h)

-- Making room changes no readable byte: growing keeps them in place, compaction moves them.
pub contents-make_space :
    {b : Buffer} (len : ℕ)
    → IsValid b
    → length b.storage + len < 2 ^ 63
    → writable_bytes b < len
    → contents (make_space b len) ≡ contents b
unfolding make_space
contents-make_space {b} len v h short = elim (Bool-cases (ltb (spare_bytes b) len)) [
  | inl grow ↦ rw grow (
      slice-resize b.storage b.reader_index (readable_bytes b) (add_size b.writer_index len)
        (omega arith) (omega arith))
  | inr move ↦ rw move (
      cong_slice (overwrite b.storage 8 (contents b)) {i = 8} {j = 8} refl
        (omega (arith, length-contents v))
      ∙ slice-overwrite_self b.storage 8 (contents b) (omega (arith, length-contents v)))
]

pub contents-ensure :
    {b : Buffer} (len : ℕ)
    → IsValid b
    → length b.storage + len < 2 ^ 63
    → contents (ensure_writable_bytes b len) ≡ contents b
unfolding ensure_writable_bytes
contents-ensure {b} len v h = elim (Bool-cases (ltb (writable_bytes b) len)) [
  | inl short ↦ rw short (contents-make_space len v h (ltb→lt _ _ short))
  | inr enough ↦ rw enough
]

-- A buffer with room takes the bytes behind those that it holds.
pub contents-write :
    {b : Buffer} (src : List ℕ)
    → HasRoom b (length src)
    → contents (record b {
      storage = overwrite b.storage b.writer_index src;
      writer_index = add_size b.writer_index (length src);
    })
      ≡ contents b ++ src
contents-write {b} src h =
    cong_slice (overwrite b.storage b.writer_index src) refl (omega (arith, h.valid))
    ∙ ap (λ w. slice (overwrite b.storage w src) b.reader_index (readable_bytes b + length src))
        (omega (arith, h.valid))
    ∙ slice-overwrite b.storage b.reader_index (readable_bytes b) src (omega (arith, h.valid))

-- `append` to a valid buffer, whose vector and data are together below 2^63 bytes, adds the data
-- behind the readable bytes, whatever it does to make room.
pub contents-append :
    {b : Buffer} (src : List ℕ)
    → IsValid b
    → length b.storage + length src < 2 ^ 63
    → contents (append b src) ≡ contents b ++ src
unfolding append
contents-append {b} src v h =
    contents-write src (ensure-HasRoom (length src) v h)
    ∙ ap (λ xs. xs ++ src) (contents-ensure (length src) v h)
