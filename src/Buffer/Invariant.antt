-- ===== src/Buffer/Invariant.antt =====
-- The indices of a buffer stay in order and inside the vector.
use echo_server.Prelude.{
  ◌⊎◌, ℕ, ◌+◌, ◌-◌, ◌^◌, ◌≤◌, ◌<◌, ◌≡◌, List, arith, inl, inr, Bool-cases, ltb, ltb→lt, length,
  take, replicate, slice, length-append, length-take, length-replicate, length-overwrite,
}
use echo_server.Buffer.{
  Buffer, cheap_prepend, init, readable_bytes, writable_bytes, retrieve, resize, make_space,
  ensure_writable_bytes, append,
}

-- A `std::vector<char>` holds fewer than 2^63 bytes.
pub record IsValid (b : Buffer) : Type 0 where
  pub prepend : cheap_prepend ≤ b.reader_index
  pub ordered : b.reader_index ≤ b.writer_index
  pub within : b.writer_index ≤ length b.storage
  pub small : length b.storage < 2 ^ 63

pub init-IsValid : (n : ℕ) → n < 2 ^ 62 → IsValid (init n)
unfolding init
init-IsValid n h = omega (arith, length-replicate {A = ℕ} (8 + n) 0)

pub readable-eq : {b : Buffer} → IsValid b → readable_bytes b ≡ b.writer_index - b.reader_index
readable-eq v = omega arith

pub writable-eq : {b : Buffer} → IsValid b → writable_bytes b ≡ length b.storage - b.writer_index
writable-eq v = omega arith

pub retrieve-IsValid : {b : Buffer} (len : ℕ) → IsValid b → IsValid (retrieve b len)
unfolding retrieve
retrieve-IsValid len v = ground arith

pub length-resize : (xs : List ℕ) (n : ℕ) → length xs ≤ n → length (resize xs n) ≡ n
length-resize xs n h = omega (
  arith,
  length-append (take n xs) (replicate (n - length xs) 0),
  length-take n xs,
  length-replicate {A = ℕ} (n - length xs) 0,
)

-- After `makeSpace` the buffer is in order and has the room that was asked for.
pub record HasRoom (b : Buffer) (len : ℕ) : Type 0 where
  pub valid : IsValid b
  pub room : b.writer_index + len ≤ length b.storage

pub make_space-HasRoom :
    {b : Buffer} (len : ℕ)
    → IsValid b
    → length b.storage + len < 2 ^ 63
    → writable_bytes b < len
    → HasRoom (make_space b len) len
unfolding make_space
make_space-HasRoom {b} len v h short = ground (
  arith,
  length-resize b.storage (b.writer_index + len),
  length-overwrite b.storage 8 (slice b.storage b.reader_index (readable_bytes b)),
)

-- The compaction copies to a lower address: it runs only when bytes in front have been read.
pub make_space_moves_down :
    {b : Buffer} (len : ℕ)
    → IsValid b
    → length b.storage + len < 2 ^ 63
    → writable_bytes b < len
    → (length (make_space b len).storage ≡ b.writer_index + len) ⊎ (cheap_prepend < b.reader_index)
unfolding make_space
make_space_moves_down {b} len v h short =
    ground (arith, length-resize b.storage (b.writer_index + len))

pub ensure-HasRoom :
    {b : Buffer} (len : ℕ)
    → IsValid b
    → length b.storage + len < 2 ^ 63
    → HasRoom (ensure_writable_bytes b len) len
unfolding ensure_writable_bytes
ensure-HasRoom {b} len v h = elim (Bool-cases (ltb (writable_bytes b) len)) [
  | inl short ↦ rw short (make_space-HasRoom len v h (ltb→lt _ _ short))
  | inr enough ↦ rw enough (record { valid = v; room = ground arith })
]

-- Appending to a valid buffer, with vector and data together below 2^63 bytes, keeps the indices
-- in order and inside the vector, whether the vector grows or not.
pub append-IsValid :
    {b : Buffer} (src : List ℕ)
    → IsValid b
    → length b.storage + length src < 2 ^ 63
    → IsValid (append b src)
unfolding append
append-IsValid {b} src v h =
    let r = ensure_writable_bytes b (length src) in
    ground (arith, ensure-HasRoom (length src) v h, length-overwrite r.storage r.writer_index src)
