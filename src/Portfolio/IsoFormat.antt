-- ===== src/Portfolio/IsoFormat.antt =====
-- Python's datetimes as src/skcoord/portfolio.py uses them: an instant with a time zone, or a clock
-- reading without one, and the text that `astimezone(timezone.utc).isoformat()` prints. Both are in
-- microseconds since the day before the first day of the year 1: a datetime's own years are 1 to 9999,
-- and its zone may put the instant up to a day outside them.
use Prim.Native.Nat.{◌/◌, ◌%◌, min}
use Prim.Native.String.{slice}
use skcoord.Prelude.{
  ℕ, zero, suc, ◌+◌, ◌-◌, ◌*◌, String, Bool, not, ◌&&◌, ◌||◌, List, [], ◌∷◌, ltb, leb, concat, ◌≡◌,
  refl, true, Result, Error, err, ok, if◌then◌else◌,
}

pub data Moment : Type 0 where
  aware naive : ℕ → Moment

abbrev microseconds_per_day : ℕ
microseconds_per_day = 86400000000

-- n in that many decimal digits
unfoldable digits : ℕ → ℕ → String
digits zero n = ""
digits (suc width) n =
    concat (digits width (n / 10) ∷ slice "0123456789" (n % 10) (n % 10 + 1) ∷ [])

is_leap : ℕ → Bool
is_leap year = leb (year % 4) 0 && (not (leb (year % 100) 0) || leb (year % 400) 0)

-- The month and the day, both from 1, of a day of the year, from 0, by the months' lengths.
unfoldable month_day : ℕ → List ℕ → ℕ → ℕ × ℕ
month_day month [] day = (month, day + 1)
month_day month (days ∷ rest) day =
    let later = month_day (month + 1) rest (day - days) in
    if ltb day days then (month, day + 1) else later

month_lengths : Bool → List ℕ
month_lengths leap =
    31 ∷ (if leap then 29 else 28) ∷ 31 ∷ 30 ∷ 31 ∷ 30 ∷ 31 ∷ 31 ∷ 30 ∷ 31 ∷ 30 ∷ []

-- The year and the day of the year, from 0, of a day, by cycles of 400, 100, 4 years and one.
year_day : ℕ → ℕ × ℕ
year_day day =
    let in_400 = day % 146097 in
    let centuries = min 3 (in_400 / 36524) in
    let in_100 = in_400 - centuries * 36524 in
    let in_4 = in_100 % 1461 in
    let years = min 3 (in_4 / 365) in
    (day / 146097 * 400 + centuries * 100 + in_100 / 1461 * 4 + years + 1, in_4 - years * 365)

date_text : ℕ → String
unfolding digits month_day year_day month_lengths is_leap
date_text day =
    let (year, rest) = year_day day in
    let (month, day_of_month) = month_day 1 (month_lengths (is_leap year)) rest in
    concat (digits 4 year ∷ "-" ∷ digits 2 month ∷ "-" ∷ digits 2 day_of_month ∷ [])

-- The clock of a day's microsecond; the fraction is left out where it is 0.
clock_text : ℕ → String
unfolding digits
clock_text t =
    let seconds = t / 1000000 in
    let fraction = t % 1000000 in
    let rest = if leb fraction 0 then "" else concat ("." ∷ digits 6 fraction ∷ []) in
    concat (
      digits 2 (seconds / 3600)
      ∷ ":"
      ∷ digits 2 (seconds / 60 % 60)
      ∷ ":"
      ∷ digits 2 (seconds % 60)
      ∷ rest
      ∷ [])

-- 3652059 days from the first of the year 1 to the last of the year 9999
abbrev pub is_in_range : ℕ → Bool
is_in_range instant =
    leb microseconds_per_day instant && ltb instant (3652060 * microseconds_per_day)

utc_parts : ℕ → String
unfolding date_text clock_text
utc_parts instant = concat (
    date_text (instant / microseconds_per_day - 1)
    ∷ "T"
    ∷ clock_text (instant % microseconds_per_day)
    ∷ "+00:00"
    ∷ [])

-- The text of an instant, which has to lie in the years 1 to 9999 by UTC.
unfoldable pub iso_text : ℕ → Result String
unfolding utc_parts
iso_text instant =
    if is_in_range instant
    then ok (utc_parts instant)
    else err (Error.overflow_error "date value out of range")

-- The call returns on an instant in range.
pub iso_text-ok :
    (instant : ℕ) → is_in_range instant ≡ true → (text : String) × (iso_text instant ≡ ok text)
unfolding iso_text
iso_text-ok instant h = (utc_parts instant, rw h refl)
