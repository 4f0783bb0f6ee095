-- ===== src/FixedBuffer.antt =====
-- include/FixedBuffer.h: a byte array of a fixed size that is filled from the front. The array is
-- a list, `cur_` an index into it; the template's `bufferSize` is an argument. `int` and `size_t`
-- meet in `valid`, whose difference wraps.
pub mod Contents
mod Examples
use echo_server.Prelude.{
  ℕ, ◌+◌, ◌*◌, Bool, List, if◌then◌else◌, ltb, length, replicate, overwrite, add_size, sub_size,
}

abbrev pub small_buffer_size : ℕ
small_buffer_size = 4096

abbrev pub large_buffer_size : ℕ
large_buffer_size = 4096 * 1000

pub record FixedBuffer : Type 0 where
  pub bytes : List ℕ
  pub cur : ℕ
  pub used : ℕ

-- The constructor, with the array cleared as by `bzero()`.
unfoldable pub init : ℕ → FixedBuffer
init size = record { bytes = replicate size 0; cur = 0; used = 0 }

abbrev pub valid : ℕ → FixedBuffer → ℕ → Bool
valid size b len = ltb len (sub_size size b.used)

unfoldable pub add : FixedBuffer → ℕ → FixedBuffer
add b len = record b { cur = b.cur + len; used = add_size b.used len }

unfoldable pub append : ℕ → FixedBuffer → List ℕ → FixedBuffer
unfolding add
append size b src =
    if valid size b (length src)
    then add (record b { bytes = overwrite b.bytes b.cur src }) (length src)
    else b

unfoldable pub reset : FixedBuffer → FixedBuffer
reset b = record b { cur = 0; used = 0 }
