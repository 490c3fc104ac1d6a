-- ===== src/Schedule/Steady.antt =====
-- What the resolver of internal/schedule/schedule.go relies on a layer for, and `At` between two boundaries.
use kerberon.Base.{
  ◌≡◌, refl, ◌∙◌, ◌≤◌, ◌<◌, ◌⊎◌, inl, inr, String, str_eq, Bool, true, false, Option, none, some,
  List, [], ◌∷◌, ◌++◌, if◌then◌else◌, ltb, leb, arith, All, Bool-cases, ◌&&◌,
}
use kerberon.Core.Time.{Time}
use kerberon.Core.Records.{Override}
use kerberon.Schedule.Resolver.{
  Layer, Resolver, at, override_at, layer_at, layer_points, override_points, keep_if, within,
  in_force,
}

-- Not strictly between.
abbrev pub Outside : Time → Time → Time → Type 0
Outside p q x = (x ≤ p) ⊎ (q ≤ x)

-- What the resolver relies on, over a window: the instants at which a layer may change its answer lie in the
-- window, the start excluded, and between them it does not change.
pub record IsSteady (from to : Time) (l : Layer) : Type 0 where
  pub inside : All (λ x. (from < x) × (x ≤ to)) (l.boundaries from to)
  pub constant :
      (p q t : Time)
      → from ≤ p
      → q ≤ to
      → All (Outside p q) (l.boundaries from to)
      → p ≤ t
      → t < q
      → l.user_at t ≡ l.user_at p

pub All-left : (P : Time → Type 0) (xs ys : List Time) → All P (xs ++ ys) → All P xs × All P ys
All-left P [] ys h = (tt, h)
All-left P (x ∷ xs) ys h = let (a, b) = All-left P xs ys h.1 in ((h.0, a), b)

layer_at-constant :
    (layers : List Layer) (from to p q t : Time)
    → All (IsSteady from to) layers
    → from ≤ p
    → q ≤ to
    → All (Outside p q) (layer_points from to layers)
    → p ≤ t
    → t < q
    → layer_at t layers ≡ layer_at p layers
unfolding layer_at
layer_at-constant [] from to p q t s lo hi h le lt = refl
layer_at-constant (l ∷ layers) from to p q t s lo hi h le lt =
    let (mine, others) =
      All-left (Outside p q) (l.boundaries from to) (layer_points from to layers) h in
    let here = s.0.constant p q t lo hi mine le lt in
    let rest = layer_at-constant layers from to p q t s.1 lo hi others le lt in
    λ i. elim (here i) [ some user ↦ some user | none ↦ rest i ]

keep_if-All :
    (P : Time → Type 0) (b : Bool) (t : Time) (rest : List Time)
    → All P (keep_if b t rest)
    → (b ≡ true → P t) × All P rest
keep_if-All P true t rest h = (λ e. h.0, h.1)
keep_if-All P false t rest h = (λ e. absurd (cc e), h)

-- Neither test of an instant against an edge changes between two neighbouring points.
edge_constant :
    (p q t from to x : Time)
    → from ≤ p
    → q ≤ to
    → (within from to x ≡ true → Outside p q x)
    → p ≤ t
    → t < q
    → (leb x t ≡ leb x p) × (ltb t x ≡ ltb p x)
edge_constant p q t from to x lo hi h le lt = elim (Bool-cases (within from to x)) [
  | inl e ↦ apart (h e)
  | inr e ↦ (ground arith, ground arith)
]
  where
    apart : Outside p q x → (leb x t ≡ leb x p) × (ltb t x ≡ ltb p x)
    apart (inl a) = (ground arith, ground arith)
    apart (inr a) = (ground arith, ground arith)

override_at-constant :
    (name : String) (overrides : List Override) (found : Option String) (p q t from to : Time)
    → from ≤ p
    → q ≤ to
    → All (Outside p q) (override_points name from to overrides)
    → p ≤ t
    → t < q
    → override_at name t found overrides ≡ override_at name p found overrides
unfolding override_at
override_at-constant name [] found p q t from to lo hi h le lt = refl
override_at-constant name (o ∷ overrides) found p q t from to lo hi h le lt =
    elim (Bool-cases (str_eq o.schedule_name name)) [
      | inl e ↦
          let rest = override_points name from to overrides in
          let h' : All (Outside p q) (
              keep_if (within from to o.starts_at) o.starts_at
                (keep_if (within from to o.ends_at) o.ends_at rest)) =
            rw e at h in
          let (starts, more) =
            keep_if-All (Outside p q) (within from to o.starts_at) o.starts_at
              (keep_if (within from to o.ends_at) o.ends_at rest) h' in
          let (ends, others) =
            keep_if-All (Outside p q) (within from to o.ends_at) o.ends_at rest more in
          let first = (edge_constant p q t from to o.starts_at lo hi starts le lt).0 in
          let second = (edge_constant p q t from to o.ends_at lo hi ends le lt).1 in
          (λ i.
            override_at name t
              (if str_eq o.schedule_name name && (first i && second i)
                then some o.user_id
                else found)
              overrides)
          ∙ override_at-constant name overrides
              (if in_force name p o then some o.user_id else found) p q t from to lo hi others le lt
      | inr e ↦
          let others : All (Outside p q) (override_points name from to overrides) = rw e at h in
          rw e (override_at-constant name overrides found p q t from to lo hi others le lt)
    ]

pub at-constant :
    (r : Resolver) (from to p q t : Time)
    → All (IsSteady from to) r.schedule.layers
    → from ≤ p
    → q ≤ to
    → All (Outside p q) (layer_points from to r.schedule.layers)
    → All (Outside p q) (override_points r.schedule.name from to r.overrides)
    → p ≤ t
    → t < q
    → at r t ≡ at r p
unfolding at
at-constant r from to p q t s lo hi layers overrides le lt =
    let above =
      override_at-constant r.schedule.name r.overrides none p q t from to lo hi overrides le lt in
    let below = layer_at-constant r.schedule.layers from to p q t s lo hi layers le lt in
    λ i. elim (above i) [ some user ↦ some user | none ↦ below i ]
