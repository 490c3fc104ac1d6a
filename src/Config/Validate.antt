-- ===== src/Config/Validate.antt =====
-- The checks of internal/config/validate.go. What `url.Parse` makes of a text, its scheme and its host, and
-- the zones that `time.LoadLocation` knows are parameters.
use kerberon.Base.{
  ℕ, ◌==◌, String, str_eq, Bool, true, false, not, ◌&&◌, ◌||◌, Option, none, some, List, [], ◌∷◌,
  ◌++◌, any, if◌then◌else◌,
}
use kerberon.Base.Int.{ℤ, pos, negsuc}
use kerberon.Alert.Text.{to_lower}
use kerberon.Config.Model.{
  Config, User, Team, Schedule, Route, Heartbeat, user_by_id, team_by_name, policy_by_name,
}
use kerberon.Config.Problem.{
  Problem, Place, required, unknown, none_given, not_url, no_host, bad_scheme, not_positive,
  too_few, not_configured, problem, fine, report_if, each, entries, is_nil,
}
use kerberon.Config.Steps.{channel_configured, is_known, validate_policies}
use kerberon.Config.Rotas.{missing, validate_timezone, validate_layer}

-- ─── Teams, routes, heartbeats ───

abbrev pub member_problems : Config → ℕ → ℕ → String → List Problem
member_problems c i j m = report_if (missing (user_by_id c m)) (Place.member i j) "" (unknown m)

unfoldable pub team_problems : Config → ℕ → Team → List Problem
team_problems c i t =
    report_if (is_nil t.members) (Place.team i) "members" none_given
    ++ each (member_problems c i) 0 t.members

unfoldable pub validate_teams : Config → List Problem
unfolding team_problems
validate_teams c = entries Place.team "name" (λ (t : Team). t.name) (team_problems c) 0 [] c.teams

-- A name that is required and is to be known.
abbrev pub reference : Place → String → String → Bool → List Problem
reference place part name absent =
    if str_eq name ""
    then problem place part required
    else report_if absent place part (unknown name)

unfoldable pub route_problems : Config → ℕ → Route → List Problem
route_problems c i r =
    report_if (is_nil r.criteria) (Place.route i) "match" required
    ++ (reference (Place.route i) "team" r.team (missing (team_by_name c r.team))
        ++ (reference (Place.route i) "policy" r.policy (missing (policy_by_name c r.policy))
            ++ report_if (is_nil r.group_by) (Place.route i) "group_by" required))

unfoldable pub validate_routes : Config → List Problem
unfolding route_problems
validate_routes c =
    if is_nil c.routes
    then problem Place.routes "" none_given
    else each (route_problems c) 0 c.routes

abbrev severity_known : String → Bool
severity_known s = any (str_eq (to_lower s)) ("critical" ∷ "warning" ∷ "info" ∷ [])

unfoldable pub heartbeat_problems : Config → ℕ → Heartbeat → List Problem
unfolding to_lower
heartbeat_problems c i h =
    report_if (h.expected_interval == 0) (Place.heartbeat i) "expected_interval" not_positive
    ++ (reference (Place.heartbeat i) "team" h.team (missing (team_by_name c h.team))
        ++ report_if (not (str_eq h.severity "") && not (severity_known h.severity))
            (Place.heartbeat i) "severity" (unknown h.severity))

unfoldable pub validate_heartbeats : Config → List Problem
unfolding heartbeat_problems
validate_heartbeats c =
    entries Place.heartbeat "name" (λ (h : Heartbeat). h.name) (heartbeat_problems c) 0 []
      c.heartbeats

abbrev attempts_problems : ℤ → List Problem
attempts_problems (pos n) = report_if (n == 0) Place.notifications "max_attempts" too_few
attempts_problems (negsuc n) = problem Place.notifications "max_attempts" too_few

unfoldable pub validate_notifications : Config → List Problem
validate_notifications c =
    let fb = c.notifications.fallback_channel in
    attempts_problems c.notifications.max_attempts
    ++ (if str_eq fb ""
        then fine
        else if not (is_known fb)
        then problem Place.notifications "fallback_channel" (unknown fb)
        else report_if (not (channel_configured c.channels fb)) Place.notifications
            "fallback_channel" (not_configured fb))

module _ (parse_url : String → Option (String × String)) where
  unfoldable pub validate_server : Config → List Problem
  validate_server c =
      (if str_eq c.server.external_url ""
        then problem Place.server "external_url" required
        else elim (parse_url c.server.external_url) [
          | none ↦ problem Place.server "external_url" not_url
          | some (scheme, host) ↦
              if not (str_eq scheme "http" || str_eq scheme "https")
              then problem Place.server "external_url" (bad_scheme scheme)
              else report_if (str_eq host "") Place.server "external_url" no_host
        ])
      ++ (report_if (str_eq c.server.secret_key "") Place.server "secret_key" required
          ++ report_if (str_eq c.server.ingest_token "") Place.server "ingest_token" required)

module _ (known_zone : String → Bool) where
  unfoldable pub user_problems : ℕ → User → List Problem
  unfolding validate_timezone
  user_problems i u =
      validate_timezone known_zone (Place.user i) "timezone" u.timezone false
      ++ (if is_nil u.contacts
          then problem (Place.user i) "contacts" none_given
          else each
              (λ k (p : String × String).
                report_if (not (is_known p.0)) (Place.user i) "contacts" (unknown p.0))
              0 u.contacts)

  unfoldable pub validate_users : Config → List Problem
  unfolding user_problems
  validate_users c =
      if is_nil c.users
      then problem Place.users "" none_given
      else entries Place.user "id" (λ (u : User). u.id) user_problems 0 [] c.users

  unfoldable pub schedule_problems : Config → ℕ → Schedule → List Problem
  unfolding validate_timezone validate_layer
  schedule_problems c i s =
      report_if (not (str_eq s.team "") && missing (team_by_name c s.team)) (Place.schedule i)
        "team" (unknown s.team)
      ++ (validate_timezone known_zone (Place.schedule i) "timezone" s.timezone true
          ++ (if is_nil s.layers
              then problem (Place.schedule i) "layers" none_given
              else each (validate_layer known_zone c i) 0 s.layers))

  unfoldable pub validate_schedules : Config → List Problem
  unfolding schedule_problems
  validate_schedules c =
      entries Place.schedule "name" (λ (s : Schedule). s.name) (schedule_problems c) 0 []
        c.schedules

-- `Validate`: the configuration is taken where nothing is reported.
unfoldable pub validate :
    (String → Option (String × String)) → (String → Bool) → Config → List Problem
unfolding validate_server validate_users validate_teams validate_schedules validate_policies
    validate_routes validate_heartbeats validate_notifications
validate parse_url known_zone c =
    validate_server parse_url c
    ++ (validate_users known_zone c
        ++ (validate_teams c
            ++ (validate_schedules known_zone c
                ++ (validate_policies c
                    ++ (validate_routes c
                        ++ (validate_heartbeats c ++ validate_notifications c))))))
