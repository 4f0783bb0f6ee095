-- ===== src/LogFile/Names/Apart.antt =====
-- The names of files that are opened one after another.
use echo_server.Prelude.{
  ℕ, ◌+◌, ◌≤◌, ◌<◌, ◌≡◌, ◌↔◌, refl, sym, ap, ◌∙◌, inl, inr, true, false, List, [], ◌∷◌, ◌++◌, arith,
  length, length-append, ltb, ltb→lt, Bool-cases,
}
use echo_server.Decimal.{decimal, value, value-decimal}
use echo_server.Decimal.Padded.{padded, length-padded, value-padded}
use echo_server.Timestamp.{Tm}
use echo_server.Timestamp.Format.{InRange}
use echo_server.LogFile.{LogFile, roll_file}
use echo_server.LogFile.Names.{strftime, get_log_file_name, open_file, open_files}

cons-injective : (x y : ℕ) (xs ys : List ℕ) → x ∷ xs ≡ y ∷ ys → (x ≡ y) × (xs ≡ ys)
cons-injective x y xs ys e = (cc, cc)

append-split :
    (xs xs' ys ys' : List ℕ)
    → length xs ≡ length xs'
    → xs ++ ys ≡ xs' ++ ys'
    → (xs ≡ xs') × (ys ≡ ys')
append-split [] [] ys ys' h e = (refl, e)
append-split [] (x' ∷ xs') ys ys' h e = absurd (omega arith)
append-split (x ∷ xs) [] ys ys' h e = absurd (omega arith)
append-split (x ∷ xs) (x' ∷ xs') ys ys' h e =
    let (same, rest) = cons-injective x x' (xs ++ ys) (xs' ++ ys') e in
    let (p, q) = append-split xs xs' ys ys' (omega arith) rest in (cc, q)

-- Two texts with ends of one length.
append-split_right :
    (xs xs' ys ys' : List ℕ)
    → length ys ≡ length ys'
    → xs ++ ys ≡ xs' ++ ys'
    → (xs ≡ xs') × (ys ≡ ys')
append-split_right xs xs' ys ys' h e =
    append-split xs xs' ys ys'
      (omega (arith, ap length e, length-append xs ys, length-append xs' ys')) e

two_digits : (m n : ℕ) → m < 100 → n < 100 → length (padded 48 2 m) ≡ length (padded 48 2 n)
two_digits m n h k = length-padded 48 1 m h ∙ sym (length-padded 48 1 n k)

-- The same two digits in front, and the same text behind.
field :
    (m n : ℕ) (ys zs : List ℕ)
    → m < 100
    → n < 100
    → padded 48 2 m ++ ys ≡ padded 48 2 n ++ zs
    → (m ≡ n) × (ys ≡ zs)
field m n ys zs h k e =
    let (digits, rest) =
      append-split (padded 48 2 m) (padded 48 2 n) ys zs (two_digits m n h k) e in
    (sym (value-padded 2 m (omega arith)) ∙ ap value digits ∙ value-padded 2 n (omega arith), rest)

-- What stands behind the year, and its length.
abbrev after_year : Tm → List ℕ
after_year tm =
    padded 48 2 (tm.mon + 1)
    ++ (padded 48 2 tm.mday
        ++ (b'-' ∷ (padded 48 2 tm.hour ++ (padded 48 2 tm.minute ++ padded 48 2 tm.sec))))

length-field : (n : ℕ) (ys : List ℕ) → n < 100 → length (padded 48 2 n ++ ys) ≡ 2 + length ys
length-field n ys h = omega (arith, length-append (padded 48 2 n) ys, length-padded 48 1 n h)

length-after_year : (tm : Tm) → InRange tm → length (after_year tm) ≡ 11
length-after_year tm r =
    let clock = padded 48 2 tm.minute ++ padded 48 2 tm.sec in
    omega (
      arith,
      length-field (tm.mon + 1) (padded 48 2 tm.mday ++ (b'-' ∷ (padded 48 2 tm.hour ++ clock)))
          (omega arith),
      length-field tm.mday (b'-' ∷ (padded 48 2 tm.hour ++ clock)) (omega arith),
      length-field tm.hour clock (omega arith),
      length-field tm.minute (padded 48 2 tm.sec) (omega arith),
      length-padded 48 1 tm.sec (omega arith),
    )

same_fields :
    (s t : Tm)
    → s.year ≡ t.year
    → s.mon ≡ t.mon
    → s.mday ≡ t.mday
    → s.hour ≡ t.hour
    → s.minute ≡ t.minute
    → s.sec ≡ t.sec
    → s ≡ t
same_fields s t year mon mday hour minute sec = cc

-- A date can be read from its text.
strftime-injective : (s t : Tm) → InRange s → InRange t → strftime s ≡ strftime t → s ≡ t
unfolding strftime
strftime-injective s t p q e =
    let (dot, dates) = cons-injective b'.' b'.' _ _ e in
    let (year, days) =
      append-split_right (decimal (s.year + 1900)) (decimal (t.year + 1900)) (after_year s)
        (after_year t) (length-after_year s p ∙ sym (length-after_year t q)) dates in
    let (mon, rest) = field (s.mon + 1) (t.mon + 1) _ _ (omega arith) (omega arith) days in
    let (mday, dashed) = field s.mday t.mday _ _ (omega arith) (omega arith) rest in
    let (dash, times) = cons-injective b'-' b'-' _ _ dashed in
    let (hour, clock) = field s.hour t.hour _ _ (omega arith) (omega arith) times in
    let (minute, seconds) = field s.minute t.minute _ _ (omega arith) (omega arith) clock in
    let number =
      sym (value-decimal (s.year + 1900) (omega arith))
      ∙ ap value year
      ∙ value-decimal (t.year + 1900) (omega arith) in
    let sec =
      sym (value-padded 2 s.sec (omega arith))
      ∙ ap value seconds
      ∙ value-padded 2 t.sec (omega arith) in
    same_fields s t (omega (arith, number)) (omega (arith, mon)) mday hour minute sec

-- The file is opened before all those behind it, and its name is that of another exactly when
-- `localtime` gives one date for the seconds of both.
abbrev Precedes : (ℕ → Tm) → ℕ × List ℕ → List (ℕ × List ℕ) → Type 0
Precedes localtime file [] = Unit
Precedes localtime file (other ∷ files) =
    (file.0 < other.0)
    × ((file.1 ≡ other.1) ↔ (localtime file.0 ≡ localtime other.0))
    × Precedes localtime file files

abbrev pub Apart : (ℕ → Tm) → List (ℕ × List ℕ) → Type 0
Apart localtime [] = Unit
Apart localtime (file ∷ files) = Precedes localtime file files × Apart localtime files

abbrev pub AllBelow : ℕ → List ℕ → Type 0
AllBelow limit [] = Unit
AllBelow limit (now ∷ clock) = (now < limit) × AllBelow limit clock

module _ (localtime : ℕ → Tm) (limit : ℕ) (ranges : (s : ℕ) → s < limit → InRange (localtime s))
    (basename : List ℕ) where
  name_iff :
      (s t : ℕ)
      → s < limit
      → t < limit
      → (get_log_file_name localtime basename s ≡ get_log_file_name localtime basename t)
        ↔ (localtime s ≡ localtime t)
  unfolding get_log_file_name
  name_iff s t hs ht = (
    λ e.
        let (front, ending) =
          append-split_right (basename ++ strftime (localtime s))
            (basename ++ strftime (localtime t)) _ _ refl e in
        let (base, stamp) =
          append-split basename basename (strftime (localtime s)) (strftime (localtime t)) refl
            front in
        strftime-injective (localtime s) (localtime t) (ranges s hs) (ranges t ht) stamp,
    λ same. ap (λ tm. (basename ++ strftime tm) ++ b'.' ∷ b'l' ∷ b'o' ∷ b'g' ∷ []) same,
  )

  last_roll-open_file :
      (now : ℕ) (f : LogFile)
      → ltb f.last_roll now ≡ true
      → (open_file localtime basename now f).1.last_roll ≡ now
  unfolding open_file roll_file
  last_roll-open_file now f due = rw due refl

  last_roll-kept :
      (now : ℕ) (f : LogFile)
      → ltb f.last_roll now ≡ false
      → (open_file localtime basename now f).1.last_roll ≡ f.last_roll
  unfolding open_file roll_file
  last_roll-kept now f early = rw early refl

  open_files-Precedes :
      (clock : List ℕ) (f : LogFile) (s : ℕ)
      → s ≤ f.last_roll
      → s < limit
      → AllBelow limit clock
      → Precedes localtime
          (s, get_log_file_name localtime basename s)
          (open_files localtime basename clock f)
  unfolding open_files roll_file
  open_files-Precedes [] f s h hs below = tt
  open_files-Precedes (now ∷ clock) f s h hs (k, below) = elim (Bool-cases (ltb f.last_roll now)) [
    | inl due ↦
        let lt = ltb→lt f.last_roll now due in
        rw (due, open_files)
          (
            omega (arith, lt),
            name_iff s now hs k,
            open_files-Precedes clock _ s (omega (arith, lt, last_roll-open_file now f due)) hs
                below,
          )
    | inr early ↦
        rw (early, open_files)
          (open_files-Precedes clock _ s (omega (arith, last_roll-kept now f early)) hs below)
  ]

  -- Let `localtime` give dates in the usual ranges, with years below 10000, up to some second. Of
  -- the files that any calls of `rollFile` open, with whatever readings of the clock up to that
  -- second, in whatever order, each is opened in a later second than all before it. Two of them
  -- have the same name exactly when `localtime` gives the same date for the two seconds, as it may
  -- when clocks are put back.
  pub open_files-Apart :
      (clock : List ℕ) (f : LogFile)
      → AllBelow limit clock
      → Apart localtime (open_files localtime basename clock f)
  unfolding open_files roll_file
  open_files-Apart [] f below = tt
  open_files-Apart (now ∷ clock) f (k, below) = elim (Bool-cases (ltb f.last_roll now)) [
    | inl due ↦
        rw (due, open_files)
          (
            open_files-Precedes clock _ now (omega (arith, last_roll-open_file now f due)) k below,
            open_files-Apart clock _ below,
          )
    | inr early ↦ rw (early, open_files) (open_files-Apart clock _ below)
  ]
