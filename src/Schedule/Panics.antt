-- ===== src/Schedule/Panics.antt =====
-- Where the resolver of internal/schedule/schedule.go panics, as `NextDaily` and `NextWeekly` do where they
-- find no handoff: in `At`, which asks the layers in their order up to the first that has somebody, and in
-- `Intervals`, which asks every layer for its boundaries and then `At` at the start of each span.
use kerberon.Base.{
  Bool, true, false, ◌&&◌, ◌||◌, ◌≡◌, inl, inr, Bool-cases, Option, none, some, List, [], ◌∷◌, map,
  if◌then◌else◌, ltb, String,
}
use kerberon.Core.Time.{Time}
use kerberon.Core.Records.{Override}
use kerberon.Schedule.Layers.{Layer, user_at, layer_boundaries}
use kerberon.Schedule.Turns.{resolver_layer}
use kerberon.Schedule.Build as Build
use kerberon.Schedule.Build.{Outcome, done, panics}
use kerberon.Schedule.Resolver
use kerberon.Schedule.Resolver.{new_resolver, override_at, at, points}

-- A built schedule as the resolver takes it.
unfoldable pub resolver_schedule : Build.Schedule → Resolver.Schedule
unfolding resolver_layer
resolver_schedule s = record { name = s.name; layers = map resolver_layer s.layers }

-- The loop of `At` over the layers.
unfoldable pub layers_panic : Time → List Layer → Bool
layers_panic t [] = false
layers_panic t (l ∷ ls) =
    let rest = layers_panic t ls in
    elim (user_at l t) [ none ↦ true | some o ↦ elim o [ some user ↦ false | none ↦ rest ] ]

-- `At`: an override is found before a layer is asked.
unfoldable pub at_panics : Build.Schedule → List Override → Time → Bool
unfolding new_resolver override_at layers_panic resolver_schedule
at_panics s overrides t =
    elim (override_at s.name t none (new_resolver (resolver_schedule s) overrides).overrides) [
      | some user ↦ false
      | none ↦ layers_panic t s.layers
    ]

unfoldable pub on_call : Build.Schedule → List Override → Time → Outcome (Option String)
unfolding at_panics at resolver_schedule new_resolver
on_call s overrides t =
    if at_panics s overrides t
    then panics
    else done (at (new_resolver (resolver_schedule s) overrides) t)

-- The loop of `Intervals` over the boundaries of the layers.
unfoldable pub boundaries_panic : Time → Time → List Layer → Bool
boundaries_panic from to [] = false
boundaries_panic from to (l ∷ ls) =
    let rest = boundaries_panic from to ls in
    elim (layer_boundaries l from to) [ none ↦ true | some ts ↦ rest ]

-- Its loop over neighbouring points.
unfoldable pub spans_panic : (Time → Bool) → Time → List Time → Bool
spans_panic fails start [] = false
spans_panic fails start (end ∷ rest) =
    let more = spans_panic fails end rest in (ltb start end && fails start) || more

abbrev pub points_panic : (Time → Bool) → List Time → Bool
points_panic fails [] = false
points_panic fails (p ∷ rest) = spans_panic fails p rest

-- `Intervals`, and `Gaps`, which calls it first, without overrides.
unfoldable pub intervals_panic : Build.Schedule → Time → Time → Bool
unfolding boundaries_panic spans_panic points at_panics resolver_schedule new_resolver
intervals_panic s from to =
    ltb from to
    && (boundaries_panic from to s.layers
        || points_panic (at_panics s []) (points (new_resolver (resolver_schedule s) []) from to))

-- Where `At` returns, what it returns is the resolver's answer.
pub on_call-done :
    (s : Build.Schedule) (overrides : List Override) (t : Time) (o : Option String)
    → on_call s overrides t ≡ done o
    → at (new_resolver (resolver_schedule s) overrides) t ≡ o
unfolding on_call
on_call-done s overrides t o h = elim (Bool-cases (at_panics s overrides t)) [
  | inl e ↦ absurd (cc (rw (e, on_call) at h))
  | inr e ↦ cc (rw (e, on_call) at h)
]
