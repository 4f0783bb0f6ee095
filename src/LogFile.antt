-- ===== src/LogFile.antt =====
-- include/LogFile.h, log/LogFile.cc, include/FileUtil.h, log/FileUtil.cc: the files of the log.
-- The clock is an argument, `now` for `appendInLock` and `roll_now` for the later `rollFile`, and
-- so are the answers of `fwrite_unlocked` and `ferror`. A file is its count `writtenBytes_`; the
-- names of the files are in `Names`.
pub mod Roll
pub mod Names
pub mod Examples
use echo_server.Prelude.{
  ℕ, zero, suc, ◌+◌, ◌-◌, ◌*◌, ◌/◌, Bool, true, false, not, ◌&&◌, List, [], ◌∷◌, ◌++◌, Option, none,
  some, if◌then◌else◌, ltb, leb, ◌==◌, length, take, drop,
}

-- What reached the stream, and `written`. The loop ends once all is written, or on an error, where
-- the bytes that the last call took are not counted. `calls` counts the calls so far, and `kernel`
-- says for each call and number of bytes how many are taken, and whether the stream has an error.
-- `none` is more than `fuel` calls.
unfoldable pub write_all : (ℕ → ℕ → ℕ × Bool) → ℕ → ℕ → List ℕ → Option (List ℕ × ℕ)
write_all kernel zero calls bytes = if length bytes == 0 then some ([], 0) else none
write_all kernel (suc fuel) calls bytes =
    let (n, err) = kernel calls (length bytes) in
    let rest = write_all kernel fuel (calls + 1) (drop n bytes) in
    if length bytes == 0
    then some ([], 0)
    else if not (n == length bytes) && err
    then some (take n bytes, 0)
    else elim rest [ none ↦ none | some (out, k) ↦ some (take n bytes ++ out, n + k) ]

abbrev pub roll_per_seconds : ℕ
roll_per_seconds = 24 * 60 * 60

-- `files` counts the files that were opened, `written_bytes` belongs to the last one, and `flushes`
-- counts the calls of `flush`.
pub record LogFile : Type 0 where
  pub rollsize : ℕ
  pub flush_interval : ℕ
  pub check_every_n : ℕ
  pub count : ℕ
  pub start_of_period : ℕ
  pub last_roll : ℕ
  pub last_flush : ℕ
  pub files : ℕ
  pub written_bytes : ℕ
  pub flushes : ℕ

-- A new file only if the clock has moved on since the last one.
unfoldable pub roll_file : ℕ → LogFile → Bool × LogFile
roll_file now f =
    if ltb f.last_roll now
    then (
      true,
      record f {
        last_flush = now;
        last_roll = now;
        start_of_period = now / roll_per_seconds * roll_per_seconds;
        files = f.files + 1;
        written_bytes = 0;
      },
    )
    else (false, f)

-- The constructor opens the first file.
unfoldable pub init : ℕ → ℕ → ℕ → ℕ → LogFile
unfolding roll_file
init rollsize flush_interval check_every_n now =
    (roll_file now (record {
      rollsize = rollsize;
      flush_interval = flush_interval;
      check_every_n = check_every_n;
      count = 0;
      start_of_period = 0;
      last_roll = 0;
      last_flush = 0;
      files = 0;
      written_bytes = 0;
      flushes = 0;
    })).1

-- The middle of `appendInLock`: a new file when this one is too long or, once in a while, when the
-- day is over.
unfoldable pub roll_if_due : ℕ → ℕ → LogFile → LogFile
unfolding roll_file
roll_if_due now roll_now f =
    if ltb f.rollsize f.written_bytes
    then (roll_file roll_now f).1
    else if leb f.check_every_n f.count
    then (if now / roll_per_seconds * roll_per_seconds == f.start_of_period
        then record f { count = 0 }
        else (roll_file roll_now (record f { count = 0 })).1)
    else f

-- `k` is what the file's `append` counted.
unfoldable pub append_in_lock : ℕ → ℕ → ℕ → LogFile → LogFile
unfolding roll_if_due
append_in_lock k now roll_now f =
    let g =
      roll_if_due now roll_now
        (record f { written_bytes = f.written_bytes + k; count = f.count + 1 }) in
    if ltb (g.last_flush + g.flush_interval) now
    then record g { last_flush = now; flushes = g.flushes + 1 }
    else g
