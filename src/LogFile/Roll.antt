-- ===== src/LogFile/Roll.antt =====
-- When the log goes on to a new file, and what reaches a file.
use echo_server.Prelude.{
  ℕ, zero, suc, ◌+◌, ◌*◌, ◌/◌, ◌<◌, ◌≤◌, ◌≡◌, ◌⊎◌, refl, ◌&&◌, not, ap, ◌∙◌, Bool, true, false,
  List, [], ◌∷◌, ◌++◌, some, arith, ◌==◌, length, length-drop, take, drop, take-append-drop,
}
use echo_server.LogFile.{
  LogFile, write_all, roll_per_seconds, roll_file, roll_if_due, append_in_lock,
}

-- The period is that of the last roll, and no roll or flush lies in the future.
pub record Inv (now : ℕ) (f : LogFile) : Type 0 where
  pub period : f.start_of_period ≡ f.last_roll / roll_per_seconds * roll_per_seconds
  pub roll_past : f.last_roll ≤ now
  pub flush_past : f.last_flush ≤ now

-- Appending at `now`, no earlier than anything before, keeps the times in order. Afterwards the
-- last file is no longer than `rollsize`, or it was opened in the very second in which the roll
-- was tried; and a flush is not overdue.
pub append_in_lock-Inv :
    (k now roll_now : ℕ) (f : LogFile)
    → now ≤ roll_now
    → Inv now f
    → let g = append_in_lock k now roll_now f in
      Inv roll_now g
      × ((g.written_bytes ≤ g.rollsize) ⊎ (g.last_roll ≡ roll_now))
      × (now ≤ g.last_flush + g.flush_interval)
unfolding append_in_lock roll_if_due roll_file
append_in_lock-Inv k now roll_now f h v = ground arith

nothing_lem :
    (kernel : ℕ → ℕ → ℕ × Bool) (fuel calls : ℕ) → write_all kernel fuel calls [] ≡ some ([], 0)
unfolding write_all
nothing_lem kernel zero calls = refl
nothing_lem kernel (suc fuel) calls = refl

-- A stream that takes at least one byte of each call, and has no error.
abbrev pub Flows : (ℕ → ℕ → ℕ × Bool) → Type 0
Flows kernel =
    (calls k : ℕ)
    → 0 < k
    → (0 < (kernel calls k).0) × ((kernel calls k).0 ≤ k) × ((kernel calls k).1 ≡ false)

and-false : (b : Bool) → (b && false) ≡ false
and-false true = refl
and-false false = refl

write_rest :
    (kernel : ℕ → ℕ → ℕ × Bool) (fuel calls : ℕ) (bytes : List ℕ)
    → 0 < length bytes
    → (kernel calls (length bytes)).1 ≡ false
    → (out : List ℕ) (k : ℕ)
    → write_all kernel fuel (calls + 1) (drop (kernel calls (length bytes)).0 bytes) ≡ some (out, k)
    → write_all kernel (suc fuel) calls bytes
      ≡ some
          (take (kernel calls (length bytes)).0 bytes ++ out, (kernel calls (length bytes)).0 + k)
unfolding write_all
write_rest kernel fuel calls bytes pos ok out k e =
    let some_left : (length bytes == 0) ≡ false = ground arith in
    rw (some_left, ok, e)
      (rw (and-false (not ((kernel calls (length bytes)).0 == length bytes))) refl)

-- `FileUtil::append` writes and counts every byte, in order, however the stream cuts them up, with
-- at most one call for each byte, if each call takes something and the stream has no error.
pub write_all-whole :
    (kernel : ℕ → ℕ → ℕ × Bool) (fuel calls : ℕ) (bytes : List ℕ)
    → Flows kernel
    → length bytes ≤ fuel
    → write_all kernel fuel calls bytes ≡ some (bytes, length bytes)
write_all-whole kernel fuel calls [] flows h = nothing_lem kernel fuel calls
write_all-whole kernel zero calls (x ∷ xs) flows h = absurd (omega arith)
write_all-whole kernel (suc fuel) calls (x ∷ xs) flows h =
    let bytes : List ℕ = x ∷ xs in
    let n : ℕ = (kernel calls (length bytes)).0 in
    let (some_taken, few, ok) = flows calls (length bytes) (omega arith) in
    let left = length-drop n bytes in
    let ih = write_all-whole kernel fuel (calls + 1) (drop n bytes) flows (omega (arith, left)) in
    write_rest kernel fuel calls bytes (omega arith) ok (drop n bytes) (length (drop n bytes)) ih
    ∙ ap (λ ys. some (ys, n + length (drop n bytes))) (take-append-drop n bytes)
    ∙ ap (λ k. some (bytes, k)) (omega (arith, left))
