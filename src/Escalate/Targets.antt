-- ===== src/Escalate/Targets.antt =====
-- internal/escalate/adapters.go: whom a step's targets stand for at an instant, and where to reach a user.
-- The atomic pointers are values: a step resolves against one state.
use kerberon.Base.{
  ◌+◌, String, str_eq, ◌||◌, Option, none, some, List, [], ◌∷◌, ◌++◌, map, any, if◌then◌else◌,
}
use kerberon.Base.Sort.{sort}
use kerberon.Core.Time.{Time}
use kerberon.Core.Enums.{TargetKind}
use kerberon.Core.Records.{Labels, Override}
use kerberon.Policy.{Target}
use kerberon.Alert.{text_le}
use kerberon.Config.Model.{Config, User, Team}
use kerberon.Schedule.Build as Build
use kerberon.Schedule.Build.{Outcome, done, refused, ◌>>=◌, schedule_at}
use kerberon.Schedule.Panics.{on_call}

pub record TargetState : Type 0 where
  pub schedules : List Build.Schedule
  pub teams : List (String × List String)

-- A read of the map of teams: where a name comes twice, the last entry is the one it holds.
abbrev pub last_members : Option (List String) → Option (List String) → Option (List String)
last_members (some ms) first = some ms
last_members none first = first

unfoldable pub team_at : List (String × List String) → String → Option (List String)
team_at [] name = none
team_at ((n, ms) ∷ teams) name =
    last_members (team_at teams name) (if str_eq n name then some ms else none)

abbrev pub team_entry : Team → String × List String
team_entry t = (t.name, t.members)

unfoldable pub new_schedule_targets : Config → List Build.Schedule → TargetState
new_schedule_targets c schedules = record { schedules = schedules; teams = map team_entry c.teams }

-- An id is added once, and the empty one never.
abbrev pub add : List String → String → List String
add out id = if str_eq id "" || any (str_eq id) out then out else out ++ id ∷ []

unfoldable pub add_all : List String → List String → List String
add_all out [] = out
add_all out (id ∷ ids) = add_all (add out id) ids

abbrev pub sorted_members : Option (List String) → List String
sorted_members none = []
sorted_members (some ms) = sort text_le ms

abbrev pub add_on_call : List String → Option String → List String
add_on_call out none = out
add_on_call out (some user) = add out user

module _ (overrides_in_window : String → Time → Time → Option (List Override)) (st : TargetState)
    (t : Time) where
  -- An error of the reader of overrides is an error, and a panic of the schedule is one.
  unfoldable pub add_target : List String → Target → Outcome (List String)
  unfolding add_all team_at schedule_at on_call
  add_target out target = elim target.kind [
    | TargetKind.user ↦ done (add out target.name)
    | TargetKind.team ↦ done (add_all out (sorted_members (team_at st.teams target.name)))
    | TargetKind.schedule ↦ elim (schedule_at st.schedules target.name) [
      | none ↦ done out
      | some s ↦ elim (overrides_in_window target.name t (t + 1)) [
        | none ↦ refused
        | some overrides ↦ on_call s overrides t >>= λ user. done (add_on_call out user)
      ]
    ]
    | TargetKind.other s ↦ done out
  ]

  unfoldable pub resolve_from : List String → List Target → Outcome (List String)
  unfolding add_target
  resolve_from out [] = done out
  resolve_from out (target ∷ targets) = add_target out target >>= λ next. resolve_from next targets

  unfoldable pub resolve_targets : List Target → Outcome (List String)
  unfolding resolve_from
  resolve_targets targets = resolve_from [] targets

-- ─── Contacts ───

-- A channel of the configuration is a text, as it is in Go.
abbrev pub contact_on : String → Labels → Option String
contact_on ch [] = none
contact_on ch ((c, dest) ∷ contacts) = if str_eq c ch then some dest else contact_on ch contacts

abbrev last_contacts : Option Labels → Option Labels → Option Labels
last_contacts (some cs) first = some cs
last_contacts none first = first

unfoldable pub contacts_at : List User → String → Option Labels
contacts_at [] id = none
contacts_at (u ∷ users) id =
    last_contacts (contacts_at users id) (if str_eq u.id id then some u.contacts else none)

-- An address that is empty is none.
unfoldable pub destination : Config → String → String → Option String
unfolding contacts_at
destination c id ch = elim (contacts_at c.users id) [
  | none ↦ none
  | some contacts ↦ elim (contact_on ch contacts) [
    | none ↦ none
    | some dest ↦ if str_eq dest "" then none else some dest
  ]
]
