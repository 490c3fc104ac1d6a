-- ===== src/Schedule/Resolver.antt =====
-- The resolver of internal/schedule/schedule.go: who is on call at an instant and over a window, and
-- the holes in between. A layer is known by what the resolver asks of it: who it puts on call at an
-- instant, and where that may change within a window.
use kerberon.Base.{
  String, str_eq, Bool, ◌&&◌, Option, none, some, List, [], ◌∷◌, ◌++◌, if◌then◌else◌, ltb, leb,
  ◌==◌,
}
use mathlib.Core.List.{reverse}
use kerberon.Base.Sort.{sort}
use kerberon.Core.Time.{Time}
use kerberon.Core.Records.{Override, Interval}

pub record Layer : Type 0 where
  pub user_at : Time → Option String
  pub boundaries : Time → Time → List Time

pub record Schedule : Type 0 where
  pub name : String
  pub layers : List Layer

pub record Resolver : Type 0 where
  pub schedule : Schedule
  pub overrides : List Override

abbrev pub created_le : Override → Override → Bool
created_le a b = leb a.created_at b.created_at

unfoldable pub new_resolver : Schedule → List Override → Resolver
new_resolver s overrides = record { schedule = s; overrides = sort created_le overrides }

-- An override for the schedule that covers the instant; its end is excluded.
abbrev pub in_force : String → Time → Override → Bool
in_force name t o = str_eq o.schedule_name name && (leb o.starts_at t && ltb t o.ends_at)

-- The loop keeps the last one that covers the instant.
unfoldable pub override_at : String → Time → Option String → List Override → Option String
override_at name t found [] = found
override_at name t found (o ∷ overrides) =
    override_at name t (if in_force name t o then some o.user_id else found) overrides

unfoldable pub layer_at : Time → List Layer → Option String
layer_at t [] = none
layer_at t (l ∷ layers) =
    let rest = layer_at t layers in elim (l.user_at t) [ some user ↦ some user | none ↦ rest ]

unfoldable pub at : Resolver → Time → Option String
unfolding override_at layer_at
at r t = elim (override_at r.schedule.name t none r.overrides) [
  | some user ↦ some user
  | none ↦ layer_at t r.schedule.layers
]

abbrev pub within : Time → Time → Time → Bool
within from to t = ltb from t && ltb t to

abbrev pub keep_if : Bool → Time → List Time → List Time
keep_if b t rest = if b then t ∷ rest else rest

abbrev pub layer_points : Time → Time → List Layer → List Time
layer_points from to [] = []
layer_points from to (l ∷ layers) = l.boundaries from to ++ layer_points from to layers

abbrev pub override_points : String → Time → Time → List Override → List Time
override_points name from to [] = []
override_points name from to (o ∷ overrides) =
    let rest = override_points name from to overrides in
    if str_eq o.schedule_name name
    then keep_if (within from to o.starts_at) o.starts_at
        (keep_if (within from to o.ends_at) o.ends_at rest)
    else rest

-- Every candidate for a change of the answer, in order.
unfoldable pub points : Resolver → Time → Time → List Time
points r from to = sort leb (
    from ∷ layer_points from to r.schedule.layers
    ++ override_points r.schedule.name from to r.overrides
    ++ to ∷ [])

-- The spans are built newest first, so that the head is the one to merge with.
abbrev pub extend : Time → Time → String → List Interval → List Interval
extend start end user [] = record { start = start; end = end; user_id = user } ∷ []
extend start end user (iv ∷ out) =
    if str_eq iv.user_id user && iv.end == start
    then record iv { end = end } ∷ out
    else record { start = start; end = end; user_id = user } ∷ iv ∷ out

abbrev pub span : Option String → Time → Time → List Interval → List Interval
span none start end out = out
span (some user) start end out = extend start end user out

module _ (who : Time → Option String) where
  -- The loop over neighbouring points; `start` is the point before the rest.
  unfoldable pub spans : Time → List Time → List Interval → List Interval
  spans start [] out = out
  spans start (end ∷ rest) out =
      spans end rest (if ltb start end then span (who start) start end out else out)

abbrev pub from_first : (Time → List Time → List Interval) → List Time → List Interval
from_first f [] = []
from_first f (p ∷ rest) = f p rest

-- The covered spans of [from, to), newest first.
unfoldable pub covered : Resolver → Time → Time → List Interval
unfolding at points spans
covered r from to =
    if ltb from to then from_first (λ p rest. spans (at r) p rest []) (points r from to) else []

unfoldable pub intervals : Resolver → Time → Time → List Interval
unfolding covered
intervals r from to = reverse (covered r from to)

-- The loop of `Gaps`: what lies between the cursor and the next span, and after the last.
unfoldable pub gaps_from : Time → Time → List Interval → List Interval
gaps_from cursor to [] =
    if ltb cursor to then record { start = cursor; end = to; user_id = "" } ∷ [] else []
gaps_from cursor to (iv ∷ spans) =
    let rest = gaps_from (if ltb cursor iv.end then iv.end else cursor) to spans in
    if ltb cursor iv.start
    then record { start = cursor; end = iv.start; user_id = "" } ∷ rest
    else rest

unfoldable pub gaps : Resolver → Time → Time → List Interval
unfolding intervals gaps_from
gaps r from to = gaps_from from to (intervals r from to)
