-- ===== src/Config/Steps.antt =====
-- The checks of internal/config/validate.go on policies and their steps, and whom a step could page.
use kerberon.Base.{
  ℕ, String, str_eq, Bool, false, not, ◌||◌, Option, none, some, List, [], ◌∷◌, ◌++◌, any,
  if◌then◌else◌,
}
use kerberon.Base.Int.{ℤ, pos, negsuc}
use kerberon.Core.Enums.{TargetKind}
use kerberon.Policy.{Target}
use kerberon.Config.Model.{
  Config, User, Team, Schedule, Layer, Step, EscalationPolicy, Channels, has_id, user_by_id,
  team_by_name, schedule_by_name,
}
use kerberon.Config.Problem.{
  Problem, Place, unknown, unknown_target, none_given, negative, deferred, not_configured,
  no_contact, problem, fine, report_if, each, entries, is_nil,
}
use kerberon.Config.Rotas.{missing}

abbrev pub known_channels : List String
known_channels = "ntfy" ∷ "telegram" ∷ "email" ∷ "webhook" ∷ "sms" ∷ "voice" ∷ []

abbrev pub is_known : String → Bool
is_known ch = any (str_eq ch) known_channels

abbrev pub is_deferred : String → Bool
is_deferred ch = str_eq ch "sms" || str_eq ch "voice"

abbrev pub channel_configured : Channels → String → Bool
channel_configured cs ch =
    if str_eq ch "ntfy"
    then not (missing cs.ntfy)
    else if str_eq ch "telegram"
    then not (missing cs.telegram)
    else if str_eq ch "email"
    then not (missing cs.email)
    else if str_eq ch "webhook"
    then not (missing cs.webhook)
    else false

-- ─── Steps ───

-- A user is added once, where the configuration has it.
unfoldable pub add_user : Config → List User → String → List User
add_user c out id =
    if any (has_id id) out
    then out
    else elim (user_by_id c id) [ some u ↦ out ++ u ∷ [] | none ↦ out ]

unfoldable pub add_users : Config → List User → List String → List User
add_users c out [] = out
add_users c out (id ∷ ids) = add_users c (add_user c out id) ids

unfoldable pub add_layers : Config → List User → List Layer → List User
add_layers c out [] = out
add_layers c out (l ∷ ls) = add_layers c (add_users c out l.participants) ls

abbrev pub team_members : Option Team → List String
team_members none = []
team_members (some t) = t.members

abbrev pub schedule_layers : Option Schedule → List Layer
schedule_layers none = []
schedule_layers (some s) = s.layers

abbrev pub add_target : Config → List User → TargetKind → String → List User
add_target c out TargetKind.user name = add_user c out name
add_target c out TargetKind.team name = add_users c out (team_members (team_by_name c name))
add_target c out TargetKind.schedule name =
    add_layers c out (schedule_layers (schedule_by_name c name))
add_target c out (TargetKind.other s) name = out

-- Everyone whom the targets could page; the participants of a schedule, since any may be on call.
unfoldable pub reachable_users : Config → List User → List Target → List User
reachable_users c out [] = out
reachable_users c out (t ∷ ts) = reachable_users c (add_target c out t.kind t.name) ts

abbrev pub target_known : Config → TargetKind → String → Bool
target_known c TargetKind.schedule name = not (missing (schedule_by_name c name))
target_known c TargetKind.user name = not (missing (user_by_id c name))
target_known c TargetKind.team name = not (missing (team_by_name c name))
target_known c (TargetKind.other s) name = false

abbrev pub has_contact : String → User → Bool
has_contact ch u = any (λ (p : String × String). str_eq p.0 ch) u.contacts

abbrev pub contact_problems : Place → String → ℕ → User → List Problem
contact_problems place ch k u =
    report_if (not (has_contact ch u)) place "channels" (no_contact u.id ch)

unfoldable pub channel_problems : Config → Place → List User → ℕ → String → List Problem
channel_problems c place reachable k ch =
    if not (is_known ch)
    then problem place "channels" (unknown ch)
    else if is_deferred ch
    then problem place "channels" (deferred ch)
    else report_if (not (channel_configured c.channels ch)) place "channels" (not_configured ch)
      ++ each (contact_problems place ch) 0 reachable

unfoldable pub target_problems : Config → Place → ℕ → Target → List Problem
target_problems c place k t =
    report_if (not (target_known c t.kind t.name)) place "targets" (unknown_target t.kind t.name)

unfoldable pub validate_step : Config → ℕ → ℕ → Step → List Problem
unfolding target_problems channel_problems
validate_step c pi si s =
    report_if (is_nil s.targets) (Place.step pi si) "targets" none_given
    ++ (each (target_problems c (Place.step pi si)) 0 s.targets
        ++ (report_if (is_nil s.channels) (Place.step pi si) "channels" none_given
            ++ each (channel_problems c (Place.step pi si) (reachable_users c [] s.targets)) 0
                s.channels))

abbrev pub repeat_problems : Place → ℤ → List Problem
repeat_problems place (pos n) = fine
repeat_problems place (negsuc n) = problem place "repeat" negative

unfoldable pub policy_problems : Config → ℕ → EscalationPolicy → List Problem
policy_problems c i p =
    repeat_problems (Place.policy i) p.repeat
    ++ (if is_nil p.steps
        then problem (Place.policy i) "steps" none_given
        else each (validate_step c i) 0 p.steps)

unfoldable pub validate_policies : Config → List Problem
unfolding policy_problems
validate_policies c =
    entries Place.policy "name" (λ (p : EscalationPolicy). p.name) (policy_problems c) 0 []
      c.escalation_policies
