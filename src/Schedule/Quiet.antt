-- ===== src/Schedule/Quiet.antt =====
-- Where `Intervals` of internal/schedule/schedule.go does not panic over a window, neither does `At` within it.
use kerberon.Base.{
  ◌≡◌, refl, ap, sym, ◌∙◌, ◌≤◌, ◌<◌, inl, inr, Bool, true, false, Option, none, some, List, [], ◌∷◌,
  ◌++◌, map, if◌then◌else◌, ltb, leb, String, All, All-append, Bool-cases, arith,
}
use mathlib.Core.List.{reverse}
use kerberon.Base.Sort.{sort}
use kerberon.Core.Time.{Time}
use kerberon.Schedule.Layers.{Layer, layer_boundaries}
use kerberon.Schedule.Turns.{resolver_layer, IsSettled, listed}
use kerberon.Schedule.Build as Build
use kerberon.Schedule.Resolver
use kerberon.Schedule.Resolver.{
  new_resolver, override_at, layer_at, layer_points, at, points, spans, covered, from_first,
  intervals,
}
use kerberon.Schedule.Steady.{Outside, All-left, IsSteady}
use kerberon.Schedule.Spans.{held, holds}
use kerberon.Schedule.Refine.{intervals_refine_at}
use kerberon.Schedule.Panics.{
  resolver_schedule, layers_panic, at_panics, spans_panic, points_panic, intervals_panic,
}

-- Somebody, just where the test holds.
abbrev raised : Bool → Option String
raised b = if b then some "" else none

module _ (from to : Time) where
  boundaries-inside :
      (ls : List Layer)
      → All (IsSettled from to) ls
      → All (λ x. (from < x) × (x ≤ to)) (layer_points from to (map resolver_layer ls))
  unfolding resolver_layer
  boundaries-inside [] s = tt
  boundaries-inside (l ∷ ls) s =
      All-append (λ x. (from < x) × (x ≤ to)) (listed (layer_boundaries l from to))
        (layer_points from to (map resolver_layer ls)) s.0.inside (boundaries-inside ls s.1)

  layers_panic-constant :
      (ls : List Layer) (p q t : Time)
      → All (IsSettled from to) ls
      → from ≤ p
      → q ≤ to
      → All (Outside p q) (layer_points from to (map resolver_layer ls))
      → p ≤ t
      → t < q
      → layers_panic t ls ≡ layers_panic p ls
  unfolding layers_panic resolver_layer
  layers_panic-constant [] p q t s lo hi out le lt = refl
  layers_panic-constant (l ∷ ls) p q t s lo hi out le lt =
      let (mine, others) =
        All-left (Outside p q) (listed (layer_boundaries l from to))
          (layer_points from to (map resolver_layer ls)) out in
      let here = s.0.constant p q t lo hi mine le lt in
      let rest = layers_panic-constant ls p q t s.1 lo hi others le lt in
      λ i. elim (here i) [ none ↦ true | some o ↦ elim o [ some user ↦ false | none ↦ rest i ] ]

  -- A layer that has somebody exactly where the layers of the schedule panic.
  abbrev alarm : List Layer → Resolver.Layer
  alarm ls = record {
    user_at = λ t. raised (layers_panic t ls);
    boundaries = λ a b. layer_points a b (map resolver_layer ls);
  }

  alarm-IsSteady : (ls : List Layer) → All (IsSettled from to) ls → IsSteady from to (alarm ls)
  alarm-IsSteady ls s = record {
    inside = boundaries-inside ls s;
    constant =
        λ p q t lo hi out le lt. ap raised (layers_panic-constant ls p q t s lo hi out le lt);
  }

  abbrev alarms : Build.Schedule → Resolver.Resolver
  alarms s = new_resolver (record { name = s.name; layers = alarm s.layers ∷ [] }) []

  no_more : (xs : List Time) → xs ++ [] ≡ xs
  no_more [] = refl
  no_more (x ∷ xs) = ap (λ ys. x ∷ ys) (no_more xs)

  alarms-points :
      (s : Build.Schedule)
      → points (alarms s) from to ≡ points (new_resolver (resolver_schedule s) []) from to
  unfolding points new_resolver resolver_schedule sort
  alarms-points s =
      ap (λ ps. sort leb (from ∷ ps ++ [] ++ to ∷ []))
        (no_more (layer_points from to (map resolver_layer s.layers)))

  alarms-at : (s : Build.Schedule) (t : Time) → at (alarms s) t ≡ (raised (at_panics s [] t))
  unfolding at at_panics layer_at new_resolver override_at sort
  alarms-at s t = once (layers_panic t s.layers)
    where
      once : (b : Bool) → (elim (raised b) [ some user ↦ some user | none ↦ none ]) ≡ raised b
      once true = refl
      once false = refl

spans-none :
    (fails : Time → Bool) (who : Time → Option String)
    → ((t : Time) → who t ≡ raised (fails t))
    → (start : Time) (rest : List Time) → spans_panic fails start rest ≡ false
    → spans who start rest [] ≡ []
unfolding spans spans_panic
spans-none fails who same start [] h = refl
spans-none fails who same start (end ∷ rest) h = elim (Bool-cases (ltb start end)) [
  | inl e ↦
      let calm : fails start ≡ false = ground arith in
      let nobody : who start ≡ none = same start ∙ rw calm refl in
      rw (e, nobody) (spans-none fails who same end rest (ground arith))
  | inr e ↦ rw e (spans-none fails who same end rest (ground arith))
]

-- Over a window in which `Intervals` does not panic, and in which every layer gives one answer, a panic
-- included, between the boundaries that it lists, `At` does not panic.
pub quiet_everywhere :
    (from to : Time) (s : Build.Schedule) (t : Time)
    → All (IsSettled from to) s.layers
    → intervals_panic s from to ≡ false
    → from ≤ t
    → t < to
    → at_panics s [] t ≡ false
unfolding intervals covered intervals_panic new_resolver
quiet_everywhere from to s t settled quiet lo hi =
    let wide : ltb from to ≡ true = ground arith in
    let calm : points_panic (at_panics s []) (points (alarms from to s) from to) ≡ false =
      ap (points_panic (at_panics s [])) (alarms-points from to s) ∙ ground (arith, wide, quiet) in
    let empty : intervals (alarms from to s) from to ≡ [] =
      rw wide (ap reverse (none_at_all (points (alarms from to s) from to) calm)) in
    let same =
      intervals_refine_at (alarms from to s) from to (alarm-IsSteady from to s.layers settled, tt) t
        "" lo hi in
    let by : holds "" (at (alarms from to s) t) ≡ false = sym same ∙ ap (held "" t) empty in
    let rung : holds "" (raised (at_panics s [] t)) ≡ false =
      sym (ap (holds "") (alarms-at from to s t)) ∙ by in
    elim (Bool-cases (at_panics s [] t)) [ inl e ↦ absurd (cc (rw e at rung)) | inr e ↦ e ]
  where
    none_at_all :
        (ps : List Time)
        → points_panic (at_panics s []) ps ≡ false
        → from_first (λ p rest. spans (at (alarms from to s)) p rest []) ps ≡ []
    none_at_all [] h = refl
    none_at_all (p ∷ ps) h =
        spans-none (at_panics s []) (at (alarms from to s)) (alarms-at from to s) p ps h
