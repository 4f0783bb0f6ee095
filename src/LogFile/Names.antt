-- ===== src/LogFile/Names.antt =====
-- `getLogFileName` of log/LogFile.cc, and the files that `rollFile` opens. `localtime` is an
-- argument; the 32 bytes of `timebuf` have room for years of up to nineteen digits.
pub mod Apart
use echo_server.Prelude.{
  ℕ, zero, suc, ◌+◌, ◌*◌, ◌/◌, ◌^◌, ◌≤◌, ◌<◌, ◌≡◌, ◌≢◌, refl, sym, ap, ◌∙◌, inl, inr, Bool, true,
  false, List, [], ◌∷◌, ◌++◌, Option, none, some, arith, length, length-append, ltb, ltb→lt,
  Bool-cases, if◌then◌else◌, take,
}
use echo_server.Decimal.{decimal, value, value-decimal}
use echo_server.Decimal.Padded.{padded, length-padded, value-padded}
use echo_server.Timestamp.{Tm}
use echo_server.Timestamp.Format.{InRange}
use echo_server.LogFile.{LogFile, roll_file}

-- ".%Y%m%d-%H%M%S"
unfoldable pub strftime : Tm → List ℕ
strftime tm =
    b'.'
    ∷ (decimal (tm.year + 1900)
        ++ (padded 48 2 (tm.mon + 1)
            ++ (padded 48 2 tm.mday
                ++ (b'-'
                    ∷ (padded 48 2 tm.hour ++ (padded 48 2 tm.minute ++ padded 48 2 tm.sec))))))

-- `now` is what `time` gives.
unfoldable pub get_log_file_name : (ℕ → Tm) → List ℕ → ℕ → List ℕ
unfolding strftime
get_log_file_name localtime basename now =
    (basename ++ strftime (localtime now)) ++ b'.' ∷ b'l' ∷ b'o' ∷ b'g' ∷ []

-- The name of the file that a call of `rollFile` opens, if it opens one.
unfoldable pub open_file : (ℕ → Tm) → List ℕ → ℕ → LogFile → Option (List ℕ) × LogFile
open_file localtime basename now f =
    let filename = get_log_file_name localtime basename now in
    let (rolled, g) = roll_file now f in (if rolled then some filename else none, g)

-- The files that calls of `rollFile` open, one call for each reading of the clock: the second in
-- which each is opened, and its name.
unfoldable pub open_files : (ℕ → Tm) → List ℕ → List ℕ → LogFile → List (ℕ × List ℕ)
unfolding open_file
open_files localtime basename [] f = []
open_files localtime basename (now ∷ clock) f =
    let (opened, g) = open_file localtime basename now f in
    let rest = open_files localtime basename clock g in
    elim opened [ none ↦ rest | some name ↦ (now, name) ∷ rest ]
