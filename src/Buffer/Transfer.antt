-- ===== src/Buffer/Transfer.antt =====
-- `readFd` and `writeFd` against what they are for: bytes that the kernel delivers become
-- readable, and the readable bytes are what is offered to the kernel.
use echo_server.Prelude.{
  ℕ, ◌+◌, ◌-◌, ◌^◌, ◌≤◌, ◌<◌, ◌≡◌, refl, sym, ap, ◌∙◌, List, ◌++◌, arith, inl, inr, Bool-cases, ltb,
  ltb→lt, le→ltb-false, if◌then◌else◌, length, take, drop, replicate, slice, overwrite, length-drop,
  length-replicate, length-overwrite, take-all, take-append-drop, slice-overwrite_below, drop-drop,
  drop-overwrite, drop-replicate, add_size,
}
use echo_server.Buffer.{
  Buffer, Reply, moved, failed, init, readable_bytes, writable_bytes, append, ensure_writable_bytes,
  read_fd, offered,
}
use echo_server.Buffer.Invariant.{IsValid, append-IsValid}
use echo_server.Buffer.Refine.{contents, contents-append, contents-write}

-- `readv` has filled the free end of the vector, and no index has moved.
abbrev filled : Buffer → List ℕ → Buffer
filled b bytes = record b {
  storage = overwrite b.storage b.writer_index (take (writable_bytes b) bytes);
}

filled-IsValid : {b : Buffer} (bytes : List ℕ) → IsValid b → IsValid (filled b bytes)
filled-IsValid {b} bytes v =
    omega (arith, length-overwrite b.storage b.writer_index (take (writable_bytes b) bytes), v)

contents-filled : {b : Buffer} (bytes : List ℕ) → IsValid b → contents (filled b bytes) ≡ contents b
contents-filled {b} bytes v =
    slice-overwrite_below b.storage b.reader_index (readable_bytes b) b.writer_index
      (take (writable_bytes b) bytes) (omega arith)

-- What `readFd` makes readable.
abbrev pub kept : Buffer → List ℕ → List ℕ
kept b bytes =
    if ltb (length bytes) (writable_bytes b) then bytes else drop (writable_bytes b) bytes

-- On a valid buffer, with vector and data below 2^63 bytes, a read that leaves free space behind
-- makes all its bytes readable. One that fills the free space makes readable only what went to the
-- extra buffer: the bytes before that are lost.
pub contents-read_fd :
    {b : Buffer} (bytes : List ℕ)
    → IsValid b
    → length b.storage + length bytes < 2 ^ 63
    → contents (read_fd b (moved bytes)).0 ≡ contents b ++ kept b bytes
unfolding read_fd
contents-read_fd {b} bytes v h = elim (Bool-cases (ltb (length bytes) (writable_bytes b))) [
  | inl fits ↦ rw fits (
      ap
        (λ xs. contents (record b {
          storage = overwrite b.storage b.writer_index xs;
          writer_index = add_size b.writer_index (length bytes);
        }))
        (take-all (writable_bytes b) bytes (omega (arith, ltb→lt _ _ fits)))
      ∙ contents-write bytes (record { valid = v; room = omega (arith, ltb→lt _ _ fits) }))
  | inr full ↦ rw full (
      contents-append {b = filled b bytes} (drop (writable_bytes b) bytes) (filled-IsValid bytes v)
        (omega (
          arith,
          length-overwrite b.storage b.writer_index (take (writable_bytes b) bytes),
          length-drop (writable_bytes b) bytes,
        ))
      ∙ ap (λ xs. xs ++ drop (writable_bytes b) bytes) (contents-filled bytes v))
]

-- Reading into a valid buffer keeps the indices in order and inside the vector, on every branch, if
-- vector and data are together below 2^63 bytes.
pub read_fd-IsValid :
    {b : Buffer} (reply : Reply)
    → IsValid b
    → ((bytes : List ℕ) → reply ≡ moved bytes → length b.storage + length bytes < 2 ^ 63)
    → IsValid (read_fd b reply).0
unfolding read_fd
read_fd-IsValid (failed e) v h = v
read_fd-IsValid {b} (moved bytes) v h = elim (Bool-cases (ltb (length bytes) (writable_bytes b))) [
  | inl fits ↦ rw fits (
      omega (
        arith,
        length-overwrite b.storage b.writer_index (take (writable_bytes b) bytes),
        ltb→lt _ _ fits,
        v,
      ))
  | inr full ↦ rw full (
      append-IsValid (drop (writable_bytes b) bytes) (filled-IsValid bytes v) (
        omega (
          arith,
          length-overwrite b.storage b.writer_index (take (writable_bytes b) bytes),
          length-drop (writable_bytes b) bytes,
          h bytes refl,
        )))
]

-- What `writeFd` of a valid buffer offers to the kernel is the free end of the vector: the
-- readable bytes and the offered ones lie side by side and make up the vector from the reader's
-- index on.
pub contents-offered :
    {b : Buffer} → IsValid b → contents b ++ offered b ≡ drop b.reader_index b.storage
unfolding offered
contents-offered {b} v =
    ap (◌++◌ (contents b)) tail
    ∙ take-append-drop (readable_bytes b) (drop b.reader_index b.storage)
  where
    tail :
        slice b.storage b.writer_index (writable_bytes b)
        ≡ drop (readable_bytes b) (drop b.reader_index b.storage)
    tail =
        take-all (writable_bytes b) (drop b.writer_index b.storage)
          (omega (arith, length-drop b.writer_index b.storage, v))
        ∙ sym (
            drop-drop b.reader_index (readable_bytes b) b.storage
            ∙ ap (λ k. drop k b.storage) (omega (arith, v)))

append-init :
    (size : ℕ) (src : List ℕ)
    → size < 2 ^ 62
    → length src ≤ size
    → append (init size) src ≡ record {
      storage = overwrite (replicate (8 + size) 0) 8 src;
      reader_index = 8;
      writer_index = 8 + length src;
    }
unfolding append ensure_writable_bytes init
append-init size src h k =
    rw
      (le→ltb-false (writable_bytes (init size)) (length src)
        (omega (arith, length-replicate {A = ℕ} (8 + size) 0)))
      (ap
        (λ w.
          let b : Buffer = record {
            storage = overwrite (replicate (8 + size) 0) 8 src;
            reader_index = 8;
            writer_index = w;
          } in
          b)
        (omega arith))

-- A new buffer of less than 2^62 bytes to which data was appended that fits offers none of it:
-- `writeFd` hands to the kernel the zeros behind the data.
pub offered-append-init :
    (size : ℕ) (src : List ℕ)
    → size < 2 ^ 62
    → length src ≤ size
    → offered (append (init size) src) ≡ replicate (size - length src) 0
unfolding offered
offered-append-init size src h k =
    ap offered (append-init size src h k)
    ∙ take-all _ (drop (8 + length src) (overwrite zeros 8 src)) (
        omega (
          arith,
          length-drop (8 + length src) (overwrite zeros 8 src),
          length-overwrite zeros 8 src,
          length-replicate {A = ℕ} (8 + size) 0,
        ))
    ∙ drop-overwrite zeros 8 src
    ∙ ap (λ n. drop (8 + length src) (replicate n 0)) (omega arith)
    ∙ drop-replicate (8 + length src) (size - length src) 0
  where
    zeros : List ℕ
    zeros = replicate (8 + size) 0
