-- ===== src/Config/Model.antt =====
-- The records of internal/config/config.go, their defaults and lookups.
use kerberon.Base.{◌*◌, ◌==◌, String, str_eq, Bool, Option, List, [], ◌∷◌, map, find, if◌then◌else◌}
use kerberon.Base.Int.{ℤ, pos, negsuc}
use kerberon.Core.Time.{Duration, second, minute}
use kerberon.Core.Records.{Labels}
use kerberon.Policy.{Target}
use kerberon.Alert.{default_volatile_labels}

pub record Server : Type 0 where
  pub listen : String
  pub external_url : String
  pub secret_key : String
  pub ingest_token : String

pub record User : Type 0 where
  pub id : String
  pub name : String
  pub timezone : String
  pub contacts : Labels

pub record Team : Type 0 where
  pub name : String
  pub members : List String

pub record Restriction : Type 0 where
  pub days : List String
  pub start : String
  pub end : String

pub record Handoff : Type 0 where
  pub day : String
  pub time : String
  pub timezone : String

-- The two named types, the empty text, and any other.
pub data LayerType : Type 0 where
  rotation restriction blank : LayerType
  other : String → LayerType

pub record Layer : Type 0 where
  pub name : String
  pub type : LayerType
  pub participants : List String
  pub rotation : String
  pub handoff : Handoff
  pub restriction : Option Restriction

pub record Schedule : Type 0 where
  pub name : String
  pub team : String
  pub timezone : String
  pub layers : List Layer

pub record Step : Type 0 where
  pub delay : Duration
  pub targets : List Target
  pub channels : List String

pub record EscalationPolicy : Type 0 where
  pub name : String
  pub repeat : ℤ
  pub ack_timeout : Duration
  pub steps : List Step

pub record Route : Type 0 where
  pub name : String
  pub criteria : Labels
  pub team : String
  pub policy : String
  pub group_by : List String
  pub group_wait : Duration
  pub group_interval : Duration
  pub resolve_grace : Duration
  pub volatile_labels : List String

pub record Heartbeat : Type 0 where
  pub name : String
  pub expected_interval : Duration
  pub grace_period : Duration
  pub team : String
  pub severity : String

pub record NtfyChannel : Type 0 where
  pub default_server : String

pub record TelegramChannel : Type 0 where
  pub bot_token : String

pub record EmailChannel : Type 0 where
  pub smtp_host : String
  pub smtp_port : ℤ
  pub from : String
  pub username : String
  pub password : String

pub record WebhookChannel : Type 0 where
  pub url : String

pub record Channels : Type 0 where
  pub ntfy : Option NtfyChannel
  pub telegram : Option TelegramChannel
  pub email : Option EmailChannel
  pub webhook : Option WebhookChannel

pub record Notifications : Type 0 where
  pub fallback_channel : String
  pub max_attempts : ℤ

pub record Config : Type 0 where
  pub server : Server
  pub database_path : String
  pub users : List User
  pub teams : List Team
  pub schedules : List Schedule
  pub escalation_policies : List EscalationPolicy
  pub routes : List Route
  pub heartbeats : List Heartbeat
  pub channels : Channels
  pub notifications : Notifications

-- ─── Defaults ───

abbrev or_text : String → String → String
or_text s default = if str_eq s "" then default else s

abbrev or_duration : Duration → Duration → Duration
or_duration d default = if d == 0 then default else d

abbrev or_labels : List String → List String
or_labels [] = default_volatile_labels
or_labels (l ∷ labels) = l ∷ labels

abbrev or_attempts : ℤ → ℤ
or_attempts (pos n) = if n == 0 then pos 5 else pos n
or_attempts (negsuc n) = negsuc n

abbrev route_defaults : Route → Route
route_defaults r = record r {
  group_wait = or_duration r.group_wait (30 * second);
  group_interval = or_duration r.group_interval (5 * minute);
  resolve_grace = or_duration r.resolve_grace (2 * minute);
  volatile_labels = or_labels r.volatile_labels;
}

unfoldable pub apply_defaults : Config → Config
apply_defaults c = record c {
  server = record c.server { listen = or_text c.server.listen "0.0.0.0:8080" };
  database_path = or_text c.database_path "./kerberon.db";
  notifications = record c.notifications {
    max_attempts = or_attempts c.notifications.max_attempts;
  };
  routes = map route_defaults c.routes;
}

-- ─── Lookups ───

abbrev pub has_id : String → User → Bool
has_id id u = str_eq u.id id

abbrev pub team_named : String → Team → Bool
team_named name t = str_eq t.name name

abbrev pub schedule_named : String → Schedule → Bool
schedule_named name s = str_eq s.name name

abbrev pub policy_named : String → EscalationPolicy → Bool
policy_named name p = str_eq p.name name

unfoldable pub user_by_id : Config → String → Option User
user_by_id c id = find (has_id id) c.users

unfoldable pub team_by_name : Config → String → Option Team
team_by_name c name = find (team_named name) c.teams

unfoldable pub schedule_by_name : Config → String → Option Schedule
schedule_by_name c name = find (schedule_named name) c.schedules

unfoldable pub policy_by_name : Config → String → Option EscalationPolicy
policy_by_name c name = find (policy_named name) c.escalation_policies
