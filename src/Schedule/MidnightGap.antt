-- ===== src/Schedule/MidnightGap.antt =====
-- `NextWeekly` of internal/schedule/wallclock.go around a day that has no midnight.
use kerberon.Base.{
  ℕ, zero, suc, ◌+◌, ◌-◌, ◌*◌, ◌≤◌, ◌<◌, ◌≡◌, refl, ◌==◌, Bool, false, none, [], ◌∷◌, if◌then◌else◌,
  arith,
}
use kerberon.Core.Time.{Time}
use kerberon.Schedule.Zone.{Zone, hour, day, lookup, lookup_from, date, day_of, weekday, add_days}
use kerberon.Schedule.WallClock.{next_from, next_weekly}

next_from-misses :
    (wanted : ℕ → Bool) (z : Zone) (after : Time) (h m i left : ℕ)
    → ((j : ℕ) → j < i + left → wanted (day_of z (add_days z after j)) ≡ false)
    → next_from wanted z after h m i left ≡ none
unfolding next_from
next_from-misses wanted z after h m i zero miss = refl
next_from-misses wanted z after h m i (suc left) miss =
    rw (miss i (omega arith))
      (next_from-misses wanted z after h m (suc i) left (λ j h. miss j (omega arith)))

-- Four hours west of UTC, and three from a Sunday at midnight on: the first hour of that Sunday is skipped.
abbrev pub west : ℕ → Zone
west k = record { initial = 20 * hour; changes = (7 * k * day - 20 * hour, 21 * hour) ∷ [] }

-- The Friday before, at a time in the first hour of the day.
abbrev pub friday : ℕ → ℕ → Time
friday k x = (7 * k - 2) * day + x - 20 * hour

-- The days that adding dates to that Friday gives: the second is Saturday again.
friday_days :
    (k x i : ℕ)
    → 1 ≤ k
    → x < hour
    → i ≤ 8
    → day_of (west k) (add_days (west k) (friday k x) i) ≡ 7 * k - 2 + (if i == 2 then 1 else i)
unfolding add_days date lookup lookup_from
friday_days k x i pos early le = ground arith

-- In a zone west of UTC that skips the hour after midnight of a Sunday, `NextWeekly` for a Sunday, asked in
-- the first hour of the Friday before, tries no Sunday at all: the second of its nine days is Saturday once
-- more, and the next Sunday is the tenth. This is the case of its panic.
pub next_weekly_misses_sunday :
    (k x h m : ℕ) → 1 ≤ k → x < hour → next_weekly (friday k x) 0 h m (west k) ≡ none
unfolding next_weekly
next_weekly_misses_sunday k x h m pos early =
    next_from-misses (λ d. weekday d == 0) (west k) (friday k x) h m 0 9
      λ j lt. let shown = friday_days k x j pos early (omega arith) in ground (arith, shown)
