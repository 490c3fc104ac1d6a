-- ===== src/Schedule/Layers.antt =====
-- The layers of internal/schedule/schedule.go: handoffs, the position in a rotation, and who a layer puts
-- on call. `NextDaily` and `NextWeekly` may panic; a function that calls them gives `none` then.
use kerberon.Base.{
  ℕ, zero, suc, ◌-◌, ◌/◌, ◌%◌, ◌==◌, Bool, false, not, Option, none, some, List, [], ◌∷◌, ◌++◌,
  if◌then◌else◌, ltb, leb, String, str_eq, length, get_elem?,
}
use kerberon.Core.Time.{Time}
use kerberon.Config.Model.{LayerType}
use kerberon.Schedule.Zone.{Zone, day_of, sub_days}
use kerberon.Schedule.WallClock.{next_weekly, next_daily}
use kerberon.Schedule.Restriction.{Restriction, covers}
use kerberon.Schedule.Restriction

pub record Layer : Type 0 where
  pub name : String
  pub type : LayerType
  pub participants : List String
  pub rotation : String
  pub handoff_day : ℕ
  pub handoff_hour : ℕ
  pub handoff_minute : ℕ
  pub location : Zone
  pub restriction : Option Restriction
  pub anchor : Time

-- The first handoff after an instant.
unfoldable pub next_handoff : Layer → Time → Option Time
next_handoff l t =
    if str_eq l.rotation "daily"
    then next_daily t l.handoff_hour l.handoff_minute l.location
    else next_weekly t l.handoff_day l.handoff_hour l.handoff_minute l.location

module _ (next : Time → Option Time) where
  -- The loop of `prevHandoff`: the last handoff that is not after `t`. Each round takes a later one, so
  -- that `t` and one more are rounds enough.
  unfoldable pub walk : ℕ → Time → Time → Option Time
  walk zero t cur = none
  walk (suc fuel) t cur = elim (next cur) [
    | none ↦ none
    | some n ↦ let rest = walk fuel t n in if ltb t n then some cur else rest
  ]

  -- The loop of `boundaries`: the handoffs after `cur` up to `to`.
  unfoldable pub handoffs : ℕ → Time → Time → Option (List Time)
  handoffs zero to cur = none
  handoffs (suc fuel) to cur = elim (next cur) [
    | none ↦ none
    | some n ↦
        let rest = handoffs fuel to n in
        if ltb to n then some [] else elim rest [ none ↦ none | some hs ↦ some (n ∷ hs) ]
  ]

-- How far back to look: nine days and one for a weekly rotation, two and one for a daily one.
abbrev pub look_back : Layer → ℕ
look_back l = if str_eq l.rotation "daily" then 3 else 10

unfoldable pub prev_handoff : Layer → Time → Option Time
unfolding walk next_handoff
prev_handoff l t = elim (next_handoff l (sub_days l.location t (look_back l))) [
  | none ↦ none
  | some first ↦ walk (next_handoff l) (suc t) t first
]

-- Calendar days from one instant to another, forward or back: `period` of each modulo the participants.
-- Go's division rounds towards zero.
abbrev pub shift : Bool → ℕ → ℕ
shift weekly days = if weekly then days / 7 else days

abbrev pub place : Bool → ℕ → ℕ → ℕ → ℕ
place weekly from to n =
    if leb from to then shift weekly (to - from) % n else (n - shift weekly (from - to) % n) % n

unfoldable pub position : Layer → Time → ℕ
position l handoff =
    place (str_eq l.rotation "weekly") (day_of l.location l.anchor) (day_of l.location handoff)
      (length l.participants)

abbrev pub restricted_out : Layer → Time → Bool
restricted_out l t = elim l.restriction [ none ↦ false | some r ↦ not (covers r t l.location) ]

-- Who the layer puts on call; the outer `none` is a panic.
unfoldable pub user_at : Layer → Time → Option (Option String)
unfolding prev_handoff position covers
user_at l t =
    if length l.participants == 0
    then some none
    else if restricted_out l t
    then some none
    else if str_eq l.rotation ""
    then some (get_elem? l.participants 0)
    else elim (prev_handoff l t) [
      | none ↦ none
      | some h ↦ some (get_elem? l.participants (position l h))
    ]

abbrev with_restriction : Layer → Time → Time → List Time → List Time
with_restriction l from to hs = elim l.restriction [
  | none ↦ hs
  | some r ↦ hs ++ Restriction.boundaries r from to l.location
]

unfoldable pub layer_boundaries : Layer → Time → Time → Option (List Time)
unfolding handoffs next_handoff
layer_boundaries l from to =
    if str_eq l.rotation ""
    then some (with_restriction l from to [])
    else elim (handoffs (next_handoff l) (suc to) to from) [
      | none ↦ none
      | some hs ↦ some (with_restriction l from to hs)
    ]
