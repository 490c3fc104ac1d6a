-- ===== src/Examples/Staffing.antt =====
-- A configuration that passes the checks, and whom its one step pages.
use kerberon.Base.{
  ◌+◌, ◌*◌, ◌≡◌, refl, Bool, false, Option, none, some, List, [], ◌∷◌, All, String, str_eq,
  if◌then◌else◌,
}
use kerberon.Base.Int.{pos}
use kerberon.Core.Time.{Time, minute}
use kerberon.Core.Enums.{TargetKind}
use kerberon.Core.Records.{Override}
use kerberon.Config.Model.{
  Config, LayerType, EscalationPolicy, Step, team_by_name, schedule_by_name, policy_by_name,
}
use kerberon.Config.Problem.{entries, seen_at, each}
use kerberon.Config.Steps.{validate_step, reachable_users, add_layers, add_users, add_user}
use kerberon.Config.Validate.{validate}
use kerberon.Schedule.Zone.{Zone, day, hour, date, lookup, lookup_from, sub_days, add_days}
use kerberon.Schedule.Layers.{Layer, user_at}
use kerberon.Schedule.WallClock.{resolve, occurrences}
use kerberon.Base.Sort.{sort}
use kerberon.Schedule.Build.{done, from_config}
use kerberon.Schedule.Build as Build
use kerberon.Escalate.Targets.{resolve_targets, new_schedule_targets}
use kerberon.Escalate.Reach.{Reachable, resolve_targets-Reachable}

abbrev utc : Zone
utc = record { initial = day; changes = [] }

abbrev load_location : String → Option Zone
load_location name = if str_eq name "UTC" then some utc else none

abbrev known_zone : String → Bool
known_zone name = str_eq name "UTC"

abbrev parse_url : String → Option (String × String)
parse_url s = some ("https", "pager")

abbrev no_overrides : String → Time → Time → Option (List Override)
no_overrides name from to = some []

abbrev first_step : Step
first_step = record {
  delay = minute;
  targets =
      record { kind = TargetKind.user; name = "bob" }
      ∷ record { kind = TargetKind.team; name = "ops" }
      ∷ record { kind = TargetKind.schedule; name = "office" }
      ∷ [];
  channels = "ntfy" ∷ [];
}

abbrev policy : EscalationPolicy
policy = record {
  name = "default";
  repeat = pos 1;
  ack_timeout = 30 * minute;
  steps = first_step ∷ [];
}

abbrev config : Config
config = record {
  server = record {
    listen = ":8080";
    external_url = "https://pager";
    secret_key = "k";
    ingest_token = "t";
  };
  database_path = "pager.db";
  users =
      record { id = "ann"; name = "Ann"; timezone = "UTC"; contacts = ("ntfy", "ann-topic") ∷ [] }
      ∷ record { id = "bob"; name = "Bob"; timezone = ""; contacts = ("ntfy", "bob-topic") ∷ [] }
      ∷ [];
  teams = record { name = "ops"; members = "ann" ∷ "bob" ∷ [] } ∷ [];
  schedules =
      record {
        name = "office";
        team = "ops";
        timezone = "UTC";
        layers =
            record {
              name = "day";
              type = LayerType.restriction;
              participants = "ann" ∷ [];
              rotation = "";
              handoff = record { day = ""; time = ""; timezone = "" };
              restriction = some (record { days = []; start = "09:00"; end = "17:00" });
            }
            ∷ [];
      }
      ∷ [];
  escalation_policies = policy ∷ [];
  routes =
      record {
        name = "all";
        criteria = ("severity", "critical") ∷ [];
        team = "ops";
        policy = "default";
        group_by = "alertname" ∷ [];
        group_wait = minute;
        group_interval = minute;
        resolve_grace = minute;
        volatile_labels = [];
      }
      ∷ [];
  heartbeats = [];
  channels = record {
    ntfy = some (record { default_server = "https://ntfy.sh" });
    telegram = none;
    email = none;
    webhook = none;
  };
  notifications = record { fallback_channel = ""; max_attempts = pos 5 };
}

abbrev office : Layer
office = record {
  name = "day";
  type = LayerType.restriction;
  participants = "ann" ∷ [];
  rotation = "";
  handoff_day = 0;
  handoff_hour = 0;
  handoff_minute = 0;
  location = utc;
  restriction = some (record {
    days = none;
    start_hour = 9;
    start_minute = 0;
    end_hour = 17;
    end_minute = 0;
    crosses_midnight = false;
  });
  anchor = 0;
}

abbrev built : Build.Schedule
built = record { name = "office"; team = "ops"; location = utc; layers = office ∷ [] }

valid : validate parse_url known_zone config ≡ []
unfolding validate entries seen_at each team_by_name validate_step schedule_by_name reachable_users
    add_layers add_users add_user policy_by_name
valid = refl

from_config-office : from_config load_location config ≡ done (built ∷ [])
unfolding from_config
from_config-office = refl

paged :
    resolve_targets no_overrides
      (new_schedule_targets config (built ∷ []))
      (9 * day + 10 * hour)
      first_step.targets
    ≡ done ("bob" ∷ "ann" ∷ [])
unfolding resolve_targets new_schedule_targets sort user_at resolve date lookup lookup_from sub_days
    occurrences add_days
paged = refl

resolve_targets-Reachable_example : All (Reachable config ("ntfy" ∷ [])) ("bob" ∷ "ann" ∷ [])
resolve_targets-Reachable_example =
    resolve_targets-Reachable parse_url known_zone load_location no_overrides config (built ∷ [])
      policy first_step 0 0 (9 * day + 10 * hour) ("bob" ∷ "ann" ∷ []) (λ name from to. refl) valid
      from_config-office refl refl paged
