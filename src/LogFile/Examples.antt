-- ===== src/LogFile/Examples.antt =====
-- A log file that rolls after a hundred bytes, and a stream that takes one byte of each call.
use echo_server.Prelude.{
  ℕ, ◌/◌, ◌%◌, length, ◌+◌, ◌≤◌, ◌<◌, ◌≡◌, ◌⊎◌, refl, false, [], ◌∷◌, some, arith,
}
use echo_server.LogFile.{LogFile, init, roll_file, append_in_lock, write_all}
use echo_server.Timestamp.{Tm}
use echo_server.LogFile.Names.{open_files}
use echo_server.Timestamp.Format.{InRange}
use echo_server.LogFile.Names.Apart.{Apart, open_files-Apart}
use echo_server.LogFile.Roll.{Inv, append_in_lock-Inv, write_all-whole}

abbrev pub file : LogFile
file = record {
  rollsize = 100;
  flush_interval = 3;
  check_every_n = 1024;
  count = 5;
  start_of_period = 86400;
  last_roll = 90000;
  last_flush = 90000;
  files = 1;
  written_bytes = 90;
  flushes = 0;
}

file-Inv : Inv 90001 file
file-Inv = omega arith

append_in_lock-Inv_example :
    let g = append_in_lock 20 90001 90002 file in
    Inv 90002 g × ((g.written_bytes ≤ 100) ⊎ (g.last_roll ≡ 90002)) × (90001 ≤ g.last_flush + 3)
unfolding append_in_lock
append_in_lock-Inv_example = append_in_lock-Inv 20 90001 90002 file (omega arith) file-Inv

second_file : (append_in_lock 20 90001 90002 file).files ≡ 2
unfolding append_in_lock
second_file = refl

write_all-whole_example : write_all (λ calls k. (1, false)) 2 0 (7 ∷ 8 ∷ []) ≡ some (7 ∷ 8 ∷ [], 2)
write_all-whole_example =
    write_all-whole (λ calls k. (1, false)) 2 0 (7 ∷ 8 ∷ []) (λ calls k h. (omega arith, h, refl))
      (omega arith)

-- The first day of 1970.
abbrev first_day : ℕ → Tm
first_day s = record {
  year = 70;
  mon = 0;
  mday = 1;
  hour = s / 3600 % 24;
  minute = s / 60 % 60;
  sec = s % 60;
}

first_day-InRange : (s : ℕ) → s < 86400 → InRange (first_day s)
first_day-InRange s h = omega arith

-- The clock stands still once, and goes back once.
open_files-Apart_example :
    Apart first_day
      (open_files first_day (b'a' ∷ []) (70 ∷ 70 ∷ 75 ∷ 60 ∷ 80 ∷ []) (init 100 3 1024 60))
open_files-Apart_example =
    open_files-Apart first_day 86400 first_day-InRange (b'a' ∷ []) (70 ∷ 70 ∷ 75 ∷ 60 ∷ 80 ∷ [])
      (init 100 3 1024 60)
      (omega arith, (omega arith, (omega arith, (omega arith, (omega arith, tt)))))

three_opened :
    length (open_files first_day (b'a' ∷ []) (70 ∷ 70 ∷ 75 ∷ 60 ∷ 80 ∷ []) (init 100 3 1024 60)) ≡ 3
unfolding open_files init roll_file
three_opened = refl
