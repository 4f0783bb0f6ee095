-- ===== src/Timestamp/Format.antt =====
-- The text of a stamp, and what a reader takes from it.
use echo_server.Prelude.{ℕ, ◌+◌, ◌≤◌, ◌<◌, ◌≡◌, ◌∙◌, List, ◌∷◌, ◌++◌, arith, length, length-append}
use echo_server.Decimal.Padded.{padded, length-padded}
use echo_server.Timestamp.{Tm, Timestamp, date_text}

-- What the manual page of `localtime` says of the fields, for the years before 10000.
pub record InRange (tm : Tm) : Type 0 where
  pub year_range : tm.year + 1900 < 10000
  pub mon_range : tm.mon < 12
  pub mday_range : tm.mday ≤ 31
  pub hour_range : tm.hour < 24
  pub minute_range : tm.minute < 60
  pub sec_range : tm.sec ≤ 60

length-joined :
    (m n : ℕ) (xs : List ℕ) (c : ℕ) (ys : List ℕ)
    → length xs ≡ m
    → length ys ≡ n
    → length (xs ++ (c ∷ ys)) ≡ m + 1 + n
length-joined m n xs c ys h k = omega (arith, length-append xs (c ∷ ys))

-- Two digits and a separator in front of a text.
length-field :
    (n k c : ℕ) (ys : List ℕ) → n < 100 → length ys ≡ k → length (padded 48 2 n ++ (c ∷ ys)) ≡ 3 + k
length-field n k c ys h e =
    length-joined 2 k (padded 48 2 n) c ys (length-padded 48 1 n (omega arith)) e ∙ omega arith

pub length-date_text : (tm : Tm) → InRange tm → length (date_text tm) ≡ 19
unfolding date_text
length-date_text tm r =
    let minutes = padded 48 2 tm.minute ++ (b':' ∷ padded 48 2 tm.sec) in
    let hours = padded 48 2 tm.hour ++ (b':' ∷ minutes) in
    let days = padded 48 2 tm.mday ++ (b' ' ∷ hours) in
    let sec = length-padded 48 1 tm.sec (omega arith) in
    let minute = length-field tm.minute 2 b':' (padded 48 2 tm.sec) (omega arith) sec in
    let hour = length-field tm.hour 5 b':' minutes (omega arith) minute in
    let mday = length-field tm.mday 8 b' ' hours (omega arith) hour in
    let mon = length-field (tm.mon + 1) 11 b'/' days (omega arith) mday in
    length-joined 4 14 (padded 32 4 (tm.year + 1900)) b'/'
      (padded 48 2 (tm.mon + 1) ++ (b'/' ∷ days))
      (length-padded 32 3 (tm.year + 1900) (omega arith)) mon
