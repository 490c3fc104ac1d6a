-- ===== src/Examples/Rotations.antt =====
-- A daily rotation in UTC, and the handoffs of two zones.
use kerberon.Base.{
  ℕ, ◌+◌, ◌-◌, ◌*◌, ◌/◌, ◌%◌, ◌≤◌, ◌<◌, ◌≡◌, refl, ap, ◌∙◌, none, some, [], ◌∷◌, if◌then◌else◌, ltb,
  arith,
}
use kerberon.Core.Time.{Time, minute}
use kerberon.Config.Model.{LayerType}
use kerberon.Schedule.Zone.{Zone, hour, day, lookup, lookup_from, date, day_of, add_days, sub_days}
use kerberon.Schedule.WallClock.{
  WallClock, resolve, resolve_instant, occurrences, next_from, next_daily,
}
use kerberon.Schedule.Layers.{Layer, next_handoff}
use kerberon.Schedule.Calendar.{IsCalendar}
use kerberon.Schedule.WallClock.{next_weekly, transition_on_date}
use kerberon.Schedule.Resolver.{Resolver}
use kerberon.Schedule.Steady.{IsSteady}
use kerberon.Schedule.Turns.{resolver_layer, turns-IsSteady}
use kerberon.Schedule.MidnightGap.{west, friday, next_weekly_misses_sunday}
use kerberon.Schedule.Bisection.{OneChange, transition_found}

abbrev pub utc : Zone
utc = record { initial = day; changes = [] }

abbrev pub nightly : Layer
nightly = record {
  name = "primary";
  type = LayerType.rotation;
  participants = "ann" ∷ "bob" ∷ "eve" ∷ [];
  rotation = "daily";
  handoff_day = 0;
  handoff_hour = 9;
  handoff_minute = 0;
  location = utc;
  restriction = none;
  anchor = 730119 * day + 9 * hour;
}

resolve-utc :
    (d : ℕ)
    → resolve_instant (record { date = d + 1; hour = 9; minute = 0 }) utc ≡ d * day + 9 * hour
unfolding resolve occurrences date lookup lookup_from
resolve-utc d = ground arith

days-utc : (t i : ℕ) → day_of utc (add_days utc t i) ≡ t / day + i + 1
unfolding add_days date lookup lookup_from
days-utc t i = ground arith

abbrev nine : Time → Time
nine t =
    if ltb (t % day) (9 * hour) then t / day * day + 9 * hour else (t / day + 1) * day + 9 * hour

candidate :
    (t i : ℕ)
    → resolve_instant (record { date = day_of utc (add_days utc t i); hour = 9; minute = 0 }) utc
      ≡ (t / day + i) * day + 9 * hour
candidate t i =
    ap (λ d. resolve_instant (record { date = d; hour = 9; minute = 0 }) utc) (days-utc t i)
    ∙ resolve-utc (t / day + i)

next-nine : (t : Time) → next_handoff nightly t ≡ some (nine t)
unfolding next_handoff next_daily next_from
next-nine t = ground (arith, candidate t 0, candidate t 1)

nine_later : (t : Time) → t < nine t
nine_later t = ground arith

nine_kept : (s t : Time) → s ≤ t → t < nine s → nine t ≡ nine s
nine_kept s t le lt = ground (arith, le, lt)

pub nightly-IsCalendar : IsCalendar (next_handoff nightly)
nightly-IsCalendar = record {
  total = λ t. (nine t, next-nine t, nine_later t);
  kept = λ s t c h le lt.
      let same : nine s ≡ c = cc (next-nine s, h) in
      next-nine t ∙ ap some (nine_kept s t le (ground (arith, same, lt)) ∙ same);
}

-- Three days back there is a handoff, from the fourth day of the calendar on.
pub reaches :
    (t : Time)
    → 4 * day ≤ t
    → (c : Time) × (next_handoff nightly (sub_days utc t 3) ≡ some c) × (c ≤ t)
unfolding sub_days date lookup lookup_from
reaches t late = (nine (sub_days utc t 3), next-nine (sub_days utc t 3), ground (arith, late))

turns-IsSteady_example : IsSteady (5 * day) (9 * day) (resolver_layer nightly)
turns-IsSteady_example =
    turns-IsSteady nightly refl refl nightly-IsCalendar (5 * day) (9 * day) (omega arith)
      (omega arith) (λ t lo hi. reaches t (omega arith))

abbrev resolver : Resolver
resolver = record {
  schedule = record { name = "ops"; layers = resolver_layer nightly ∷ [] };
  overrides = [];
}

next_weekly_misses_sunday_example :
    next_weekly (friday 105000 (30 * minute)) 0 9 0 (west 105000) ≡ none
next_weekly_misses_sunday_example =
    next_weekly_misses_sunday 105000 (30 * minute) 9 0 (omega arith) (omega arith)

-- The Sunday that begins at one o'clock.
abbrev sunday : WallClock
sunday = record { date = 735000; hour = 0; minute = 30 }

abbrev change : Time
change = 735000 * day - 20 * hour

abbrev noon : Time
noon = 735000 * day + 12 * hour - 21 * hour

noon_there : date (west 105000) (sunday.date * day + 12 * hour) ≡ noon
unfolding date lookup lookup_from
noon_there = refl

one_change : OneChange (west 105000) (noon - 12 * hour) (noon + 14 * hour) change
unfolding lookup lookup_from
one_change = record {
  above = omega arith;
  below = omega arith;
  whole = refl;
  before = λ t lo hi. ground arith;
  after = λ t lo hi. ground arith;
}

transition_found_example : transition_on_date (west 105000) sunday ≡ some change
unfolding date lookup lookup_from
transition_found_example = transition_found (west 105000) sunday change (omega arith) one_change
