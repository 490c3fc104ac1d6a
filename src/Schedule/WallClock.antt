-- ===== src/Schedule/WallClock.antt =====
-- internal/schedule/wallclock.go: local times, and the instants that they stand for.
use kerberon.Base.{
  ℕ, zero, suc, ◌+◌, ◌-◌, ◌*◌, ◌/◌, ◌%◌, ◌==◌, Bool, true, false, ◌&&◌, Option, none, some, List,
  [], ◌∷◌, if◌then◌else◌, ltb,
}
use kerberon.Core.Time.{Time, Duration, second, minute}
use kerberon.Schedule.Zone.{Zone, hour, day, offset_at, reading, date, day_of, weekday, add_days}

-- The date is the number of its day.
pub record WallClock : Type 0 where
  pub date : ℕ
  pub hour : ℕ
  pub minute : ℕ

pub record Resolution : Type 0 where
  pub instant : Time
  pub ambiguous : Bool
  pub nonexistent : Bool

-- The reading that a wall clock asks for.
abbrev pub asked : WallClock → ℕ
asked w = w.date * day + (w.hour * hour + w.minute * minute)

abbrev pub matches : Zone → Time → WallClock → Bool
matches z t w =
    day_of z t == w.date
    && (reading z t % day / hour == w.hour && reading z t % hour / minute == w.minute)

-- The loop of the bisection: `lo` has the old offset and `hi` the new one.
unfoldable pub bisect : Zone → ℕ → ℕ → Time → Time → Time
bisect z new zero lo hi = hi
bisect z new (suc fuel) lo hi =
    let mid = lo + (hi - lo) / 2 in
    let lower = bisect z new fuel lo mid in
    let upper = bisect z new fuel mid hi in
    if ltb second (hi - lo) then if offset_at z mid == new then lower else upper else hi

-- The window is 26 hours, below 2^17 seconds.
abbrev pub halvings : ℕ
halvings = 17

unfoldable pub transition_on_date : Zone → WallClock → Option Time
transition_on_date z w =
    let noon = date z (w.date * day + 12 * hour) in
    let lo = noon - 12 * hour in
    let hi = noon + 14 * hour in
    if offset_at z lo == offset_at z hi
    then none
    else some (let end = bisect z (offset_at z hi) halvings lo hi in end - end % second)

abbrev certain : Time → Resolution
certain t = record { instant = t; ambiguous = false; nonexistent = false }

abbrev earlier : Time → Resolution
earlier t = record { instant = t; ambiguous = true; nonexistent = false }

abbrev skipped : Time → Resolution
skipped t = record { instant = t; ambiguous = false; nonexistent = true }

-- Whether the reading occurs twice, by each of the shifts.
unfoldable pub occurrences : Zone → WallClock → Time → List Duration → Resolution
occurrences z w t [] = certain t
occurrences z w t (shift ∷ shifts) =
    let rest = occurrences z w t shifts in
    if matches z (t - shift) w
    then earlier (t - shift)
    else if matches z (t + shift) w
    then earlier t
    else rest

unfoldable pub resolve : WallClock → Zone → Resolution
resolve w z =
    let t = date z (asked w) in
    if matches z t w
    then occurrences z w t (hour ∷ 30 * minute ∷ [])
    else elim (transition_on_date z w) [ some end ↦ skipped end | none ↦ skipped t ]

abbrev pub resolve_instant : WallClock → Zone → Time
resolve_instant w z = (resolve w z).instant

-- The loops of `NextDaily` and `NextWeekly` from day `i` on; `none` stands for the panic at their end.
unfoldable pub next_from : (ℕ → Bool) → Zone → Time → ℕ → ℕ → ℕ → ℕ → Option Time
next_from wanted z after h m i zero = none
next_from wanted z after h m i (suc left) =
    let rest = next_from wanted z after h m (suc i) left in
    let d = day_of z (add_days z after i) in
    let candidate = resolve_instant (record { date = d; hour = h; minute = m }) z in
    if wanted d && ltb after candidate then some candidate else rest

unfoldable pub next_weekly : Time → ℕ → ℕ → ℕ → Zone → Option Time
next_weekly after wd h m z = next_from (λ d. weekday d == wd) z after h m 0 9

unfoldable pub next_daily : Time → ℕ → ℕ → Zone → Option Time
next_daily after h m z = next_from (λ d. true) z after h m 0 3
