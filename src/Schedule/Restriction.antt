-- ===== src/Schedule/Restriction.antt =====
-- internal/schedule/restriction.go: a layer's recurring window of local time. `none` outside of an `Option`
-- that the source has stands for an error.
use kerberon.Base.{
  ℕ, zero, suc, ◌+◌, ◌-◌, ◌*◌, ◌==◌, Bool, true, false, ◌&&◌, ◌||◌, Option, none, some, List, [],
  ◌∷◌, if◌then◌else◌, any, ltb, leb, String,
}
use kerberon.Core.Time.{Time}
use kerberon.Core.Records.{Interval, contains}
use kerberon.Config.Model as Config
use kerberon.Schedule.Zone.{Zone, day_of, weekday, add_days, sub_days}
use kerberon.Schedule.WallClock.{resolve_instant}
use kerberon.Schedule.ClockText.{parse_hhmm, parse_weekday}

pub record Restriction : Type 0 where
  -- `none` for every day.
  pub days : Option (List ℕ)
  pub start_hour : ℕ
  pub start_minute : ℕ
  pub end_hour : ℕ
  pub end_minute : ℕ
  pub crosses_midnight : Bool

unfoldable pub weekdays : List String → Option (List ℕ)
weekdays [] = some []
weekdays (d ∷ days) =
    let rest = weekdays days in
    elim (parse_weekday d) [
      | none ↦ none
      | some wd ↦ elim rest [ none ↦ none | some wds ↦ some (wd ∷ wds) ]
    ]

-- A restriction that names no days holds on every day.
abbrev named_days : List String → Option (Option (List ℕ))
named_days [] = some none
named_days (d ∷ days) = elim (weekdays (d ∷ days)) [ none ↦ none | some wds ↦ some (some wds) ]

abbrev built : Option (ℕ × ℕ) → Option (ℕ × ℕ) → Option (Option (List ℕ)) → Option Restriction
built (some (sh, sm)) (some (eh, em)) (some days) = some (record {
  days = days;
  start_hour = sh;
  start_minute = sm;
  end_hour = eh;
  end_minute = em;
  crosses_midnight = leb (eh * 60 + em) (sh * 60 + sm);
})
built _ _ _ = none

unfoldable pub new_restriction : Option Config.Restriction → Option (Option Restriction)
unfolding weekdays
new_restriction none = some none
new_restriction (some c) =
    elim (built (parse_hhmm c.start) (parse_hhmm c.end) (named_days c.days)) [
      | none ↦ none
      | some r ↦ some (some r)
    ]

abbrev on_day : Option (List ℕ) → ℕ → Bool
on_day none wd = true
on_day (some wds) wd = any (λ d. d == wd) wds

-- The window whose start falls on the date of the instant.
unfoldable pub window_starting_on : Restriction → Time → Zone → Option Interval
window_starting_on r t z =
    let start =
      resolve_instant (record { date = day_of z t; hour = r.start_hour; minute = r.start_minute })
        z in
    let end_day = if r.crosses_midnight then day_of z (add_days z t 1) else day_of z t in
    let end =
      resolve_instant (record { date = end_day; hour = r.end_hour; minute = r.end_minute }) z in
    if on_day r.days (weekday (day_of z t)) && ltb start end
    then some (record { start = start; end = end; user_id = "" })
    else none

abbrev window_covers : Option Interval → Time → Bool
window_covers none t = false
window_covers (some w) t = contains w t

unfoldable pub covers : Restriction → Time → Zone → Bool
unfolding window_starting_on
covers r t z =
    window_covers (window_starting_on r (sub_days z t 1) z) t
    || window_covers (window_starting_on r (add_days z t 0) z) t

abbrev edge : Time → Time → Time → List Time → List Time
edge from to t rest = if ltb from t && leb t to then t ∷ rest else rest

abbrev edges : Time → Time → Option Interval → List Time → List Time
edges from to none rest = rest
edges from to (some w) rest = edge from to w.start (edge from to w.end rest)

-- The loop over the days; the fuel is the nanoseconds up to the limit, and each round takes one at least.
unfoldable pub boundaries_from : Restriction → Time → Time → Zone → Time → Time → ℕ → List Time
unfolding window_starting_on
boundaries_from r from to z limit t zero = []
boundaries_from r from to z limit t (suc fuel) =
    let rest = boundaries_from r from to z limit (add_days z t 1) fuel in
    if ltb t limit then edges from to (window_starting_on r t z) rest else []

unfoldable pub boundaries : Restriction → Time → Time → Zone → List Time
unfolding boundaries_from
boundaries r from to z =
    let first = sub_days z from 1 in
    let limit = add_days z to 1 in boundaries_from r from to z limit first (limit - first)
