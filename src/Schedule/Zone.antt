-- ===== src/Schedule/Zone.antt =====
-- Civil time in a named zone, as internal/schedule uses it of Go's `time`. A zone is its offset before the
-- first change and the changes, in order. An offset is counted east of UTC and one day on, so that it is a
-- natural number; a reading is an instant with its offset added. So the days of the readings are numbered
-- from the last day before the year 1, a Sunday, and the number of a day stands for its year, month and day.
use kerberon.Base.{
  ℕ, ◌+◌, ◌-◌, ◌*◌, ◌/◌, ◌%◌, Bool, true, ◌&&◌, Option, none, some, List, [], ◌∷◌, if◌then◌else◌,
  ltb, leb,
}
use kerberon.Core.Time.{Time, Duration, minute}

abbrev pub hour : Duration
hour = 60 * minute

abbrev pub day : Duration
day = 24 * hour

pub record Zone : Type 0 where
  pub initial : ℕ
  pub changes : List (Time × ℕ)

-- A span of one offset: its end is excluded, and `none` where it has none.
pub record Era : Type 0 where
  pub start : Time
  pub end : Option Time
  pub offset : ℕ

unfoldable pub lookup_from : Time → ℕ → List (Time × ℕ) → Time → Era
lookup_from start offset [] t = record { start = start; end = none; offset = offset }
lookup_from start offset ((change, next) ∷ changes) t =
    let later = lookup_from change next changes t in
    if ltb t change then record { start = start; end = some change; offset = offset } else later

unfoldable pub lookup : Zone → Time → Era
lookup z t = lookup_from 0 z.initial z.changes t

abbrev pub offset_at : Zone → Time → ℕ
offset_at z t = (lookup z t).offset

abbrev pub reading : Zone → Time → ℕ
reading z t = t + offset_at z t

abbrev pub before_end : Option Time → Time → Bool
before_end none t = true
before_end (some end) t = ltb t end

-- `time.Date`: the offset is that of the reading taken as UTC, unless the instant so found lies outside of
-- that offset's span; then it is the offset of that instant.
unfoldable pub date : Zone → ℕ → Time
date z r =
    let era = lookup z (r - day) in
    let utc = r - era.offset in
    if leb era.start utc && before_end era.end utc then utc else r - offset_at z utc

-- The day of an instant, and the day of the week, 0 for Sunday.
abbrev pub day_of : Zone → Time → ℕ
day_of z t = reading z t / day

abbrev pub weekday : ℕ → ℕ
weekday d = d % 7

-- `AddDate` by a number of days, forward and back: the same time of day on another date.
unfoldable pub add_days : Zone → Time → ℕ → Time
add_days z t n = date z (reading z t + n * day)

unfoldable pub sub_days : Zone → Time → ℕ → Time
sub_days z t n = date z (reading z t - n * day)
