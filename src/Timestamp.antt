-- ===== src/Timestamp.antt =====
-- include/Timestamp.h and src/Timestamp.cc: a point in time, in microseconds since 1970.
-- `localtime` is the argument of the functions that call it. A stamp is not negative, and
-- `int64_t` does not overflow before the year 294,000.
pub mod Format
mod Examples
use echo_server.Prelude.{
  ℕ, ◌+◌, ◌*◌, ◌/◌, ◌%◌, Bool, List, [], ◌∷◌, ◌++◌, ltb, ◌==◌, if◌then◌else◌, take,
}
use echo_server.Decimal.Padded.{padded}

-- `struct tm`, as far as the code reads it.
pub record Tm : Type 0 where
  pub year : ℕ
  pub mon : ℕ
  pub mday : ℕ
  pub hour : ℕ
  pub minute : ℕ
  pub sec : ℕ

pub record Timestamp : Type 0 where
  pub micro_seconds : ℕ

abbrev pub micro_per_second : ℕ
micro_per_second = 1000 * 1000

-- `now`, from what `gettimeofday` gives.
unfoldable pub now : ℕ → ℕ → Timestamp
now tv_sec tv_usec = record { micro_seconds = tv_sec * micro_per_second + tv_usec }

unfoldable pub invalid : Timestamp
invalid = record { micro_seconds = 0 }

unfoldable pub seconds_since_epoch : Timestamp → ℕ
seconds_since_epoch t = t.micro_seconds / micro_per_second

unfoldable pub before : Timestamp → Timestamp → Bool
before a b = ltb a.micro_seconds b.micro_seconds

unfoldable pub same : Timestamp → Timestamp → Bool
same a b = a.micro_seconds == b.micro_seconds

-- `delta` is the product of the seconds, which are a `double`, as an integer.
unfoldable pub add_time : Timestamp → ℕ → Timestamp
add_time t delta = record { micro_seconds = t.micro_seconds + delta }

-- "%4d/%02d/%02d %02d:%02d:%02d"
unfoldable pub date_text : Tm → List ℕ
date_text tm =
    padded 32 4 (tm.year + 1900)
    ++ (b'/' ∷ padded 48 2 (tm.mon + 1)
        ++ (b'/' ∷ padded 48 2 tm.mday
            ++ (b' ' ∷ padded 48 2 tm.hour
                ++ (b':' ∷ padded 48 2 tm.minute ++ (b':' ∷ padded 48 2 tm.sec)))))

-- `snprintf` into 128 bytes. The microseconds are handed to `localtime` as they are.
unfoldable pub to_string : (ℕ → Tm) → Timestamp → List ℕ
unfolding date_text
to_string localtime t = take 127 (date_text (localtime t.micro_seconds))

-- `snprintf` into 64 bytes.
unfoldable pub to_formatted_string : (ℕ → Tm) → Bool → Timestamp → List ℕ
unfolding date_text
to_formatted_string localtime show_microseconds t =
    let tm = localtime (t.micro_seconds / micro_per_second) in
    if show_microseconds
    then take 63 (date_text tm ++ (b'.' ∷ padded 48 6 (t.micro_seconds % micro_per_second)))
    else take 63 (date_text tm)
