-- ===== src/Schedule/Staff.antt =====
-- The participants of a configured schedule, of the schedule that is built of it, and who is on call there
-- (`FromConfig`, `userAt` and `At` of internal/schedule/schedule.go).
use kerberon.Base.{
  ◌≡◌, refl, ap, sym, ◌∙◌, subst, inl, inr, true, false, Option, none, some, List, [], ◌∷◌, String,
  str_eq, eq_iff, any, map, find, All, arith, Bool-cases, Option-cases,
}
use kerberon.Base.Sort.{sort}
use kerberon.Core.Time.{Time}
use kerberon.Config.Model.{schedule_named}
use kerberon.Config.Model as Config
use kerberon.Config.Sound.{Distinct}
use kerberon.Config.Steps.{schedule_layers}
use kerberon.Config.Reachable.{Staffed}
use kerberon.Schedule.Zone.{Zone}
use kerberon.Schedule.Layers.{Layer, user_at}
use kerberon.Schedule.Turns.{resolver_layer, user_at-participant}
use kerberon.Schedule.Build.{
  Outcome, done, refused, panics, ◌>>=◌, or_refuse, anchored, anchor_ref, is_rotation, unless,
  new_layer, build_layer, build_layers, build_schedule, build_all, schedule_at, layer_zone, last_of,
}
use kerberon.Schedule.Build as Build
use kerberon.Schedule.Resolver.{layer_at, new_resolver, at}
use kerberon.Schedule.Panics.{resolver_schedule}
use kerberon.Schedule.Built.{BuiltStaffed, bound, build_schedule-Staffed}

pub All-any :
    (Q : String → Type 0) (ps : List String) (u : String)
    → All Q ps
    → any (λ p. str_eq p u) ps ≡ true
    → Q u
All-any Q [] u h e = absurd (cc e)
All-any Q (p ∷ ps) u h e = elim (Bool-cases (str_eq p u)) [
  | inl f ↦ subst Q ((eq_iff p u).0 f) h.0
  | inr f ↦ All-any Q ps u h.1 (rw f at e)
]

module _ (load : String → Option Zone) where
  -- ─── The map of schedules ───

  unnamed :
      (n : String) (css : List Config.Schedule) (ss : List Build.Schedule)
      → build_all load css ≡ done ss
      → All (λ (y : Config.Schedule). str_eq n y.name ≡ false) css
      → schedule_at ss n ≡ none
  unfolding build_all schedule_at
  unnamed n [] ss h a = let same : [] ≡ ss = cc h in subst (λ x. schedule_at x n ≡ none) same refl
  unnamed n (cs ∷ css) ss h a =
      let (s, e, h1) = bound (build_schedule load cs) _ h in
      let (rest, f, h2) = bound (build_all load css) _ h1 in
      let same : s ∷ rest ≡ ss = cc h2 in
      let (name, _) = build_schedule-Staffed load (λ x. Unit) cs s e in
      let other : str_eq s.name n ≡ false =
        apart s.name n (subst (λ x. str_eq n x ≡ false) (sym name) a.0) in
      subst (λ x. schedule_at x n ≡ none) same
        (rw (unnamed n css rest f a.1, other, schedule_at) refl)
    where
      apart : (x y : String) → str_eq y x ≡ false → str_eq x y ≡ false
      apart x y d = ground (arith, eq_iff x y, eq_iff y x)

  -- What holds of everyone in the schedule that the configuration has by a name, where no name comes twice,
  -- holds of everyone in the schedule that is built.
  pub schedule_at-Staffed :
      (Q : String → Type 0) (n : String) (css : List Config.Schedule) (ss : List Build.Schedule)
      (s : Build.Schedule)
      → build_all load css ≡ done ss
      → Distinct (λ (x : Config.Schedule). x.name) css
      → Staffed Q (schedule_layers (find (schedule_named n) css))
      → schedule_at ss n ≡ some s
      → BuiltStaffed Q s.layers
  unfolding build_all schedule_at
  schedule_at-Staffed Q n [] ss s h d q found =
      let same : [] ≡ ss = cc h in
      absurd (none_there (subst (λ x. schedule_at x n ≡ some s) (sym same) found))
    where
      none_there : schedule_at [] n ≡ some s → ⊥
      none_there e = cc e
  schedule_at-Staffed Q n (cs ∷ css) ss s h d q found =
      let (s1, e, h1) = bound (build_schedule load cs) _ h in
      let (rest, f, h2) = bound (build_all load css) _ h1 in
      let same : s1 ∷ rest ≡ ss = cc h2 in
      let (name, keeps) = build_schedule-Staffed load Q cs s1 e in
      let there = subst (λ x. schedule_at x n ≡ some s) (sym same) found in
      elim (Bool-cases (str_eq cs.name n)) [
        | inl g ↦
            let is_n : str_eq s1.name n ≡ true = subst (λ x. str_eq x n ≡ true) (sym name) g in
            let gone = unnamed n css rest f (
              subst (λ x. All (λ (y : Config.Schedule). str_eq x y.name ≡ false) css)
                ((eq_iff cs.name n).0 g) d.0) in
            let it : some s1 ≡ some s = rw (gone, is_n, schedule_at) at there in
            subst (λ (x : Build.Schedule). BuiltStaffed Q x.layers) (some-same it)
              (keeps (rw g at q))
        | inr g ↦
            let not_n : str_eq s1.name n ≡ false = subst (λ x. str_eq x n ≡ false) (sym name) g in
            schedule_at-Staffed Q n css rest s f d.1 (rw g at q)
              (later (schedule_at rest n) (rw (not_n, schedule_at) at there))
      ]
    where
      some-same : {a b : Build.Schedule} → some a ≡ some b → a ≡ b
      some-same e = cc e

      later : (o : Option Build.Schedule) → last_of o none ≡ some s → o ≡ some s
      later none e = cc e
      later (some x) e = e

-- ─── Who is on call ───

layer_at-Staffed :
    (Q : String → Type 0) (t : Time) (ls : List Layer) (u : String)
    → BuiltStaffed Q ls
    → layer_at t (map resolver_layer ls) ≡ some u
    → Q u
unfolding layer_at resolver_layer
layer_at-Staffed Q t [] u s h = absurd (cc h)
layer_at-Staffed Q t (l ∷ ls) u s h = elim (Option-cases (user_at l t)) [
  | inl e ↦ layer_at-Staffed Q t ls u s.1 (rw (e, layer_at) at h)
  | inr (o, e) ↦ elim (Option-cases o) [
    | inl f ↦ layer_at-Staffed Q t ls u s.1 (rw (e, f, layer_at) at h)
    | inr (v, f) ↦
        let same : v ≡ u = cc (rw (e, f, layer_at) at h) in
        All-any Q l.participants u s.0 (user_at-participant l t u (e ∙ ap some (f ∙ ap some same)))
  ]
]

-- Without an override, whoever is on call is in a layer.
pub at-Staffed :
    (Q : String → Type 0) (s : Build.Schedule) (t : Time) (u : String)
    → BuiltStaffed Q s.layers
    → at (new_resolver (resolver_schedule s) []) t ≡ some u
    → Q u
unfolding at new_resolver resolver_schedule sort
at-Staffed Q s t u q h = layer_at-Staffed Q t s.layers u q h
