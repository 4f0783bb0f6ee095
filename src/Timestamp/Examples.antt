-- ===== src/Timestamp/Examples.antt =====
-- A stamp of the first day of 1970, on a clock that runs for one day.
use echo_server.Prelude.{ℕ, ◌/◌, ◌%◌, ◌≡◌, refl, false, List, ◌∷◌, drop}
use echo_server.Decimal.{decimal}
use echo_server.Decimal.Padded.{padded}
use echo_server.Timestamp.{Tm, Timestamp, to_formatted_string}

abbrev first_day : ℕ → Tm
first_day s = record {
  year = 70;
  mon = 0;
  mday = 1;
  hour = s / 3600 % 24;
  minute = s / 60 % 60;
  sec = s % 60;
}

abbrev stamp : Timestamp
stamp = record { micro_seconds = 3661000042 }

-- "01:01:01" and not "07:20:42".
shown :
    drop 11 (to_formatted_string first_day false stamp)
    ≡ 48 ∷ 49 ∷ 58 ∷ 48 ∷ 49 ∷ 58 ∷ 48 ∷ 49 ∷ List.[]
unfolding to_formatted_string padded decimal
shown = refl
