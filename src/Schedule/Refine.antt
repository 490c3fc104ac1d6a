-- ===== src/Schedule/Refine.antt =====
-- `Intervals` beside `At` of internal/schedule/schedule.go.
use kerberon.Base.{
  ◌≡◌, refl, ◌∙◌, ◌≤◌, ◌<◌, inl, inr, String, str_eq, Bool, true, List, [], ◌∷◌, ◌++◌, ltb, leb,
  leb→le, arith, any, All, All-append, All-map, Bool-cases, ◌&&◌, ◌||◌,
}
use mathlib.Core.List.{reverse, reverse-cons}
use kerberon.Base.Sort.{IsSorted, sort, sort-IsSorted, sort-All, All-sort}
use kerberon.Core.Time.{Time}
use kerberon.Core.Records.{Interval, Override, contains}
use kerberon.Schedule.Resolver.{
  Layer, Resolver, at, points, layer_points, override_points, keep_if, within, from_first, spans,
  covered, intervals,
}
use kerberon.Schedule.Gaps.{leb-total, leb_trans}
use kerberon.Schedule.Steady.{Outside, IsSteady, All-left, at-constant}
use kerberon.Schedule.Spans.{holds, held, last, Steady, spans-held}

layer_points-inside :
    (layers : List Layer) (from to : Time)
    → All (IsSteady from to) layers
    → All (λ x. (from ≤ x) × (x ≤ to)) (layer_points from to layers)
layer_points-inside [] from to s = tt
layer_points-inside (l ∷ layers) from to s =
    All-append (λ x. (from ≤ x) × (x ≤ to)) (l.boundaries from to) (layer_points from to layers)
      (All-map (λ x. (from < x) × (x ≤ to)) (λ x. (from ≤ x) × (x ≤ to)) (l.boundaries from to)
        (λ x h. (omega arith, h.1)) s.0.inside)
      (layer_points-inside layers from to s.1)

keep_if-within :
    (from to x : Time) (rest : List Time)
    → All (λ x. (from ≤ x) × (x ≤ to)) rest
    → All (λ x. (from ≤ x) × (x ≤ to)) (keep_if (within from to x) x rest)
keep_if-within from to x rest h = elim (Bool-cases (within from to x)) [
  | inl e ↦ rw e ((ground arith, ground arith), h)
  | inr e ↦ rw e h
]

override_points-inside :
    (name : String) (overrides : List Override) (from to : Time)
    → All (λ x. (from ≤ x) × (x ≤ to)) (override_points name from to overrides)
override_points-inside name [] from to = tt
override_points-inside name (o ∷ overrides) from to =
    elim (Bool-cases (str_eq o.schedule_name name)) [
      | inl e ↦ rw e (
          keep_if-within from to o.starts_at _
            (keep_if-within from to o.ends_at _ (override_points-inside name overrides from to)))
      | inr e ↦ rw e (override_points-inside name overrides from to)
    ]

-- ─── The points, in order ───

last-All :
    (start : Time) (rest : List Time)
    → IsSorted leb (start ∷ rest)
    → All (λ x. x ≤ last start rest) (start ∷ rest)
last-All start [] s = (omega arith, tt)
last-All start (end ∷ rest) s =
    let later = last-All end rest s.1 in (omega (arith, leb→le start end s.0.0, later.0), later)

module _ (r : Resolver) (from to : Time) (s : All (IsSteady from to) r.schedule.layers) where
  abbrev every : List Time
  every =
      from ∷ layer_points from to r.schedule.layers
      ++ override_points r.schedule.name from to r.overrides
      ++ to ∷ []

  every-inside : from ≤ to → All (λ x. (from ≤ x) × (x ≤ to)) every
  every-inside le =
      All-append (λ x. (from ≤ x) × (x ≤ to))
        (from ∷ layer_points from to r.schedule.layers
          ++ override_points r.schedule.name from to r.overrides)
        (to ∷ [])
        (All-append (λ x. (from ≤ x) × (x ≤ to)) (from ∷ layer_points from to r.schedule.layers)
          (override_points r.schedule.name from to r.overrides)
          ((omega arith, le), layer_points-inside r.schedule.layers from to s)
          (override_points-inside r.schedule.name r.overrides from to))
        ((le, omega arith), tt)

  neighbours :
      (p q t : Time) → from ≤ p → q ≤ to → All (Outside p q) every → p ≤ t → t < q → at r t ≡ at r p
  neighbours p q t lo hi h le lt =
      let (most, end) =
        All-left (Outside p q)
          (from ∷ layer_points from to r.schedule.layers
            ++ override_points r.schedule.name from to r.overrides)
          (to ∷ []) h in
      let (layers, overrides) =
        All-left (Outside p q) (from ∷ layer_points from to r.schedule.layers)
          (override_points r.schedule.name from to r.overrides) most in
      at-constant r from to p q t s lo hi layers.1 overrides le lt

  -- Whatever holds of the instants up to `start` and of those that follow holds of every point.
  abbrev Covers : Time → List Time → Type 1
  Covers start rest =
      (P : Time → Type 0) → ((x : Time) → x ≤ start → P x) → All P (start ∷ rest) → All P every

  steady :
      (start : Time) (rest : List Time)
      → IsSorted leb (start ∷ rest)
      → All (λ x. (from ≤ x) × (x ≤ to)) (start ∷ rest)
      → Covers start rest
      → Steady (at r) start rest
  steady start [] o b c = tt
  steady start (end ∷ rest) o b c =
      let le : start ≤ end = leb→le start end o.0.0 in
      let outside : All (Outside start end) every =
        c (Outside start end) (λ x h. inl h)
          (
            inl (omega arith),
            (
              inr (omega arith),
              All-map (λ x. leb end x ≡ true) (Outside start end) rest (λ x h. inr (leb→le end x h))
                  o.1.0,
            ),
          ) in
      (
        (λ t a d. neighbours start end t b.0.0 b.1.0.1 outside a d),
        steady end rest o.1 b.1 (λ P low h. c P (λ x a. low x (omega arith)) (low start le, h)),
      )

  first-held :
      (u : String) (t : Time) (ps : List Time)
      → from ≤ t
      → t < to
      → IsSorted leb ps
      → All (λ x. (from ≤ x) × (x ≤ to)) ps
      → ((P : Time → Type 0) → All P ps → All P every)
      → held u t (from_first (λ p rest. spans (at r) p rest []) ps) ≡ holds u (at r t)
  first-held u t [] lo hi o b c = absurd ((c (λ x. ⊥) tt).0)
  first-held u t (p ∷ rest) lo hi o b c =
      let head : p ≤ from =
        (c (λ x. p ≤ x)
          (
            omega arith,
            All-map (λ x. leb p x ≡ true) (λ x. p ≤ x) rest (λ x h. leb→le p x h) o.0,
          )).0 in
      let tail : All (λ x. x ≤ last p rest) every = c (λ x. x ≤ last p rest) (last-All p rest o) in
      let end : to ≤ last p rest =
        (All-left (λ x. x ≤ last p rest)
          (from ∷ layer_points from to r.schedule.layers
            ++ override_points r.schedule.name from to r.overrides)
          (to ∷ []) tail).1.0 in
      spans-held (at r) u t rest p [] o ((tt, tt)) (steady p rest o b (λ P low h. c P h))
      ∙ ground (arith, head, end)

  covered-held :
      (u : String) (t : Time) → from ≤ t → t < to → held u t (covered r from to) ≡ holds u (at r t)
  unfolding covered points
  covered-held u t lo hi =
      let e : ltb from to ≡ true = ground arith in
      rw (e, covered)
        (first-held u t (sort leb every) lo hi (sort-IsSorted leb leb-total leb_trans every)
          (sort-All leb (λ x. (from ≤ x) × (x ≤ to)) every (every-inside (omega arith)))
          (λ P h. All-sort leb P every h))

any-append :
    (q : Interval → Bool) (xs ys : List Interval) → any q (xs ++ ys) ≡ (any q xs || any q ys)
any-append q [] ys = refl
any-append q (x ∷ xs) ys = ground (arith, any-append q xs ys)

reverse-any : (q : Interval → Bool) (ivs : List Interval) → any q (reverse ivs) ≡ any q ivs
reverse-any q [] = refl
reverse-any q (iv ∷ ivs) =
    rw (reverse-cons iv ivs)
      (any-append q (reverse ivs) (iv ∷ []) ∙ ground (arith, reverse-any q ivs))

pub intervals_refine_at :
    (r : Resolver) (from to : Time)
    → All (IsSteady from to) r.schedule.layers
    → (t : Time) (user : String) → from ≤ t
    → t < to
    → held user t (intervals r from to) ≡ holds user (at r t)
unfolding intervals
intervals_refine_at r from to s t user lo hi =
    reverse-any (λ (iv : Interval). contains iv t && str_eq iv.user_id user) (covered r from to)
    ∙ covered-held r from to s user t lo hi
