-- ===== src/Escalate/Lookups.antt =====
-- The lookups of internal/config/validate.go beside those of the escalation (internal/escalate/adapters.go):
-- the targets of a configuration that passes the checks, and the map of teams.
use kerberon.Base.{
  ◌≡◌, refl, subst, inl, inr, String, str_eq, eq_iff, true, false, none, List, [], ◌∷◌, map, find,
  arith, All, Bool-cases, Option-cases,
}
use kerberon.Base.Sort.{sort-All}
use kerberon.Core.Enums.{TargetKind}
use kerberon.Alert.{text_le}
use kerberon.Config.Model.{
  Config, Team, Schedule, team_named, schedule_named, team_by_name, schedule_by_name,
}
use kerberon.Config.Steps.{target_known, team_members, schedule_layers}
use kerberon.Config.Sound.{Distinct}
use kerberon.Config.Reachable.{Staffed, Known, Sound}
use kerberon.Config.Accepted.{Accepted}
use kerberon.Escalate.Targets.{team_at, team_entry, sorted_members}

-- ─── Accepted targets are sound ───

team_found :
    (Q : String → Type 0) (n : String) (ts : List Team)
    → All (λ (t : Team). All Q t.members) ts
    → All Q (team_members (find (team_named n) ts))
team_found Q n [] h = tt
team_found Q n (t ∷ ts) h = elim (Bool-cases (team_named n t)) [
  | inl e ↦ rw e h.0
  | inr e ↦ rw e (team_found Q n ts h.1)
]

schedule_found :
    (Q : String → Type 0) (n : String) (ss : List Schedule)
    → All (λ (s : Schedule). Staffed Q s.layers) ss
    → Staffed Q (schedule_layers (find (schedule_named n) ss))
schedule_found Q n [] h = tt
schedule_found Q n (s ∷ ss) h = elim (Bool-cases (schedule_named n s)) [
  | inl e ↦ rw e h.0
  | inr e ↦ rw e (schedule_found Q n ss h.1)
]

pub target-Sound :
    (c : Config)
    → Accepted c
    → (k : TargetKind) (name : String) → target_known c k name ≡ true
    → Sound c k name
unfolding team_by_name schedule_by_name
target-Sound c a TargetKind.user name h = ground arith
target-Sound c a TargetKind.team name h = team_found (Known c) name c.teams a.members
target-Sound c a TargetKind.schedule name h = schedule_found (Known c) name c.schedules a.staff
target-Sound c a (TargetKind.other s) name h = tt

-- ─── The map of teams ───

unlisted :
    (n : String) (ts : List Team)
    → All (λ (t : Team). str_eq n t.name ≡ false) ts
    → team_at (map team_entry ts) n ≡ none
unfolding team_at
unlisted n [] h = refl
unlisted n (t ∷ ts) h =
    let other : str_eq t.name n ≡ false = ground (arith, h.0, eq_iff t.name n, eq_iff n t.name) in
    rw (unlisted n ts h.1, other) refl

-- Where no name comes twice, the map has the team that a search finds.
pub team_at-All :
    (Q : String → Type 0) (n : String) (ts : List Team)
    → Distinct (λ (t : Team). t.name) ts
    → All Q (team_members (find (team_named n) ts))
    → All Q (sorted_members (team_at (map team_entry ts) n))
unfolding team_at
team_at-All Q n [] d h = tt
team_at-All Q n (t ∷ ts) d h = elim (Bool-cases (str_eq t.name n)) [
  | inl e ↦
      let gone =
        unlisted n ts (
          subst (λ x. All (λ (y : Team). str_eq x y.name ≡ false) ts) ((eq_iff t.name n).0 e)
            d.0) in
      rw (gone, e) (sort-All text_le Q t.members (rw e at h))
  | inr e ↦
      let rest = team_at-All Q n ts d.1 (rw e at h) in
      elim (Option-cases (team_at (map team_entry ts) n)) [
        | inl f ↦ rw (f, e) tt
        | inr (ms, f) ↦ rw f (rw f at rest)
      ]
]
