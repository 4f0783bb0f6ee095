-- ===== src/Buffer.antt =====
-- include/Buffer.h and src/Buffer.cc: the byte buffer of a connection. The vector is a list of
-- bytes, the two indices are numbers, and `size_t` sums and differences wrap. A copy is
-- `overwrite`, which leaves out what would fall outside the vector.
pub mod Invariant
pub mod Refine
pub mod Transfer
mod Examples
use echo_server.Prelude.{
  ℕ, ◌+◌, ◌-◌, List, ◌++◌, Bool, Option, none, some, ltb, if◌then◌else◌, length, take, drop,
  replicate, slice, overwrite, add_size, sub_size,
}

pub record Buffer : Type 0 where
  pub storage : List ℕ
  pub reader_index : ℕ
  pub writer_index : ℕ

abbrev pub cheap_prepend : ℕ
cheap_prepend = 8

abbrev pub initial_size : ℕ
initial_size = 1024

-- The constructor. The vector is filled with zeros.
unfoldable pub init : ℕ → Buffer
init initial = record {
  storage = replicate (cheap_prepend + initial) 0;
  reader_index = cheap_prepend;
  writer_index = cheap_prepend;
}

abbrev pub readable_bytes : Buffer → ℕ
readable_bytes b = sub_size b.writer_index b.reader_index

abbrev pub writable_bytes : Buffer → ℕ
writable_bytes b = sub_size (length b.storage) b.writer_index

abbrev pub prependable_bytes : Buffer → ℕ
prependable_bytes b = b.reader_index

unfoldable pub retrieve_all : Buffer → Buffer
retrieve_all b = record b { reader_index = cheap_prepend; writer_index = cheap_prepend }

unfoldable pub retrieve : Buffer → ℕ → Buffer
unfolding retrieve_all
retrieve b len =
    if ltb len (readable_bytes b)
    then record b { reader_index = add_size b.reader_index len }
    else retrieve_all b

-- The string is built from `peek()`, which is the index of the reader.
unfoldable pub retrieve_as_string : Buffer → ℕ → List ℕ × Buffer
retrieve_as_string b len = (slice b.storage b.reader_index len, retrieve b len)

unfoldable pub retrieve_all_as_string : Buffer → List ℕ × Buffer
unfolding retrieve_as_string
retrieve_all_as_string b = retrieve_as_string b (readable_bytes b)

-- `buffer_.resize(n)`: a vector that grows is filled up with zeros.
abbrev pub resize : List ℕ → ℕ → List ℕ
resize xs n = take n xs ++ replicate (n - length xs) 0

-- The room of a vector that need not grow: `writableBytes() + prependableBytes() - CheapPrepend`.
abbrev pub spare_bytes : Buffer → ℕ
spare_bytes b = sub_size (add_size (writable_bytes b) (prependable_bytes b)) cheap_prepend

unfoldable pub make_space : Buffer → ℕ → Buffer
make_space b len =
    if ltb (spare_bytes b) len
    then record b { storage = resize b.storage (add_size b.writer_index len) }
    else record b {
      storage =
          overwrite b.storage cheap_prepend (slice b.storage b.reader_index (readable_bytes b));
      reader_index = cheap_prepend;
      writer_index = add_size cheap_prepend (readable_bytes b);
    }

unfoldable pub ensure_writable_bytes : Buffer → ℕ → Buffer
unfolding make_space
ensure_writable_bytes b len = if ltb (writable_bytes b) len then make_space b len else b

unfoldable pub append : Buffer → List ℕ → Buffer
append b src =
    let r = ensure_writable_bytes b (length src) in
    record r {
      storage = overwrite r.storage r.writer_index src;
      writer_index = add_size r.writer_index (length src);
    }

-- What `readv` and `write` answer: the bytes that were moved, or an `errno`.
pub data Reply : Type 0 where
  moved : List ℕ → Reply
  failed : ℕ → Reply

-- The return value of `readFd` and `writeFd`, with what is stored through `saveErrno`.
pub data Outcome : Type 0 where
  count : ℕ → Outcome
  error : ℕ → Outcome

abbrev pub extra_size : ℕ
extra_size = 65536

-- How many bytes the vectors handed to `readv` can take.
unfoldable pub read_capacity : Buffer → ℕ
read_capacity b =
    if ltb (writable_bytes b) extra_size then writable_bytes b + extra_size else writable_bytes b

-- `readv` fills the free end of the vector first, and then `extraBuffer`.
unfoldable pub read_fd : Buffer → Reply → Buffer × Outcome
read_fd b (failed errno) = (b, error errno)
read_fd b (moved bytes) =
    let filled = record b { storage = overwrite b.storage b.writer_index (take writable bytes) } in
    if ltb (length bytes) writable
    then (record filled { writer_index = add_size b.writer_index (length bytes) }, count n)
    else (append filled (drop writable bytes), count n)
  where
    writable : ℕ
    writable = writable_bytes b

    n : ℕ
    n = length bytes

-- The bytes that `writeFd` hands to `write`: from `beginWrite()`, and `writableBytes()` of them.
unfoldable pub offered : Buffer → List ℕ
offered b = slice b.storage b.writer_index (writable_bytes b)

-- The first argument is what `write` answers to the bytes that it is offered.
unfoldable pub write_fd : (List ℕ → Reply) → Buffer → Outcome
write_fd kernel b = elim (kernel (offered b)) [
  | moved bytes ↦ count (length bytes)
  | failed e ↦ error e
]
