-- ===== src/Buffer/Examples.antt =====
-- A small buffer, its tests, and the theorems at concrete inputs.
use echo_server.Prelude.{◌≡◌, refl, [], ◌∷◌, arith}
use echo_server.Buffer.{
  Buffer, moved, init, append, retrieve_all_as_string, ensure_writable_bytes, read_fd, offered,
  count, write_fd,
}
use echo_server.Buffer.Invariant.{IsValid, append-IsValid}
use echo_server.Buffer.Refine.{contents, contents-append}
use echo_server.Buffer.Transfer.{contents-read_fd, offered-append-init}

-- Four bytes of room, one byte read and two readable.
abbrev small : Buffer
small = record {
  storage = 0 ∷ 0 ∷ 0 ∷ 0 ∷ 0 ∷ 0 ∷ 0 ∷ 0 ∷ 1 ∷ 2 ∷ 3 ∷ 0 ∷ [];
  reader_index = 9;
  writer_index = 11;
}

small-IsValid : IsValid small
small-IsValid = omega arith

-- Appending two bytes to `small` moves the readable ones down, appending three makes it grow.
append_compacts : append small (4 ∷ 5 ∷ []) ≡ record {
  storage = 0 ∷ 0 ∷ 0 ∷ 0 ∷ 0 ∷ 0 ∷ 0 ∷ 0 ∷ 2 ∷ 3 ∷ 4 ∷ 5 ∷ [];
  reader_index = 8;
  writer_index = 12;
}
unfolding append ensure_writable_bytes
append_compacts = refl

append_grows :
    (append small (4 ∷ 5 ∷ 6 ∷ [])).storage
    ≡ 0 ∷ 0 ∷ 0 ∷ 0 ∷ 0 ∷ 0 ∷ 0 ∷ 0 ∷ 1 ∷ 2 ∷ 3 ∷ 4 ∷ 5 ∷ 6 ∷ []
unfolding append ensure_writable_bytes
append_grows = refl

echoed : (retrieve_all_as_string (append small (4 ∷ []))).0 ≡ 2 ∷ 3 ∷ 4 ∷ []
unfolding retrieve_all_as_string append ensure_writable_bytes
echoed = refl

-- One byte fits and is lost; the next two came through the extra buffer.
read_loses_a_byte : contents (read_fd small (moved (7 ∷ 8 ∷ 9 ∷ []))).0 ≡ 2 ∷ 3 ∷ 8 ∷ 9 ∷ []
unfolding read_fd append ensure_writable_bytes
read_loses_a_byte = refl

-- The peer of a fresh buffer that holds two bytes is sent two zeros.
write_sends_zeros : write_fd moved (append (init 4) (5 ∷ 6 ∷ [])) ≡ count 2
unfolding write_fd offered append ensure_writable_bytes init
write_sends_zeros = refl

append-IsValid_example : IsValid (append small (4 ∷ 5 ∷ []))
append-IsValid_example = append-IsValid (4 ∷ 5 ∷ []) small-IsValid (omega arith)

contents-append_example : contents (append small (4 ∷ 5 ∷ [])) ≡ 2 ∷ 3 ∷ 4 ∷ 5 ∷ []
contents-append_example = contents-append (4 ∷ 5 ∷ []) small-IsValid (omega arith)

contents-read_fd_example : contents (read_fd small (moved (7 ∷ 8 ∷ 9 ∷ []))).0 ≡ 2 ∷ 3 ∷ 8 ∷ 9 ∷ []
contents-read_fd_example = contents-read_fd (7 ∷ 8 ∷ 9 ∷ []) small-IsValid (omega arith)

offered-append-init_example : offered (append (init 4) (5 ∷ 6 ∷ [])) ≡ 0 ∷ 0 ∷ []
offered-append-init_example = offered-append-init 4 (5 ∷ 6 ∷ []) (omega arith) (omega arith)
