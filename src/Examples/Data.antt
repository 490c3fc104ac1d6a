-- ===== src/Examples/Data.antt =====
-- A small installation: a team, a policy of two rungs, a route, and a database with one incident.
use Prim.Native.String.{◌++◌}
use kerberon.Base.{ℕ, zero, suc, ◌*◌, String, false, true, none, some, [], ◌∷◌}
use kerberon.Core.Time.{second, minute}
use kerberon.Core.Enums.{
  Source, AlertStatus, Severity, IncidentStatus, TimerKind, NotificationState, Channel,
  HeartbeatState, TargetKind,
}
use kerberon.Core.Records.{Alert, Incident, Timer, Notification, Heartbeat, step_payload}
use kerberon.Policy.{Policy, Step, encoded}
use kerberon.Route.{Route}
use kerberon.Store.Tx.{Db, ok, empty_db}
use kerberon.Escalate.Engine as Escalate
use kerberon.Timer.{Scheduler}
use kerberon.Notify.Dispatcher.{Dispatcher, refused}
use kerberon.System.{Config}

abbrev digit : ℕ → String
digit zero = "0"
digit (suc zero) = "1"
digit _ = "n"

abbrev pub env : Escalate.Env
env = record {
  resolve_targets = λ now targets. ok ("ann" ∷ []);
  destination = λ user ch. some "topic";
  idempotency_key = λ id step user ch pass. user ++ "/" ++ digit step ++ "/" ++ digit pass;
  ack_link = λ inc user step. "link";
  body = λ inc user step. inc.title;
}

abbrev pub rung : Step
rung = record {
  delay = 5 * minute;
  targets = record { kind = TargetKind.user; name = "ann" } ∷ [];
  channels = Channel.ntfy ∷ [];
}

abbrev pub policy : Policy
policy = record {
  name = "default";
  repeat = 2;
  ack_timeout = 30 * minute;
  steps = rung ∷ rung ∷ [];
}

abbrev pub route : Route
route = record {
  name = "db";
  criteria = ("team", "db") ∷ [];
  team = "db";
  policy = "default";
  group_by = "alertname" ∷ [];
  group_wait = 30 * second;
  group_interval = 5 * minute;
  resolve_grace = 5 * minute;
  volatile_labels = "pod" ∷ [];
}

abbrev pub config : Config
config = record { env = env; hash = λ s. s; routes = route ∷ []; policies = policy ∷ [] }

abbrev pub scheduler : Scheduler
scheduler = record {
  opts = record { max_idle_wait = minute; retry_backoff = second; max_retry_backoff = minute };
  handlers = λ k. none;
  retry_after = λ id. none;
  retry_delay = λ id. none;
  woken = false;
}

abbrev pub alert : Alert
alert = record {
  id = 0;
  fingerprint = "";
  source = Source.generic;
  status = AlertStatus.firing;
  labels = ("alertname", "Disk") ∷ ("team", "db") ∷ ("pod", "db-1") ∷ [];
  annotations = ("summary", "disk full") ∷ [];
  starts_at = 90 * minute;
  ends_at = none;
  received_at = 90 * minute;
  incident_id = none;
}

abbrev pub incident : Incident
incident = record {
  id = 1;
  group_key = "db/Disk";
  team = "db";
  policy = "default";
  severity = Severity.critical;
  title = "disk full";
  status = IncidentStatus.triggered;
  policy_snapshot = encoded policy;
  current_step = 0;
  alert_count = 1;
  created_at = 90 * minute;
  acknowledged_at = none;
  acknowledged_by = "";
  resolved_at = none;
  resolved_by = "";
  last_alert_at = 90 * minute;
  dedup_count = 0;
}

abbrev pub rung_timer : Timer
rung_timer = record {
  id = 1;
  incident_id = 1;
  kind = TimerKind.escalate;
  fire_at = 95 * minute;
  payload = step_payload 1;
  created_at = 90 * minute;
  claimed_at = none;
  completed_at = none;
  cancelled_at = none;
}

abbrev pub page : Notification
page = record {
  id = 1;
  incident_id = 1;
  idempotency_key = "ann/0/0";
  step_index = 0;
  target_user = "ann";
  channel = Channel.ntfy;
  destination = "topic";
  body = "disk full";
  title = "disk full";
  severity = Severity.critical;
  ack_url = "link";
  state = NotificationState.sending;
  attempts = 1;
  next_attempt_at = none;
  last_error = "";
  created_at = 90 * minute;
  sent_at = none;
}

abbrev pub switch : Heartbeat
switch = record {
  id = 1;
  name = "backup";
  token = "token";
  expected_interval = 10 * minute;
  grace_period = minute;
  team = "db";
  severity = Severity.critical;
  last_ping_at = some (60 * minute);
  state = HeartbeatState.healthy;
  created_at = 0;
}

-- The incident waits, with its second rung set and its first page in the outbox.
abbrev pub db : Db
db = record empty_db {
  incidents = incident ∷ [];
  timers = rung_timer ∷ [];
  notifications = page ∷ [];
  heartbeats = switch ∷ [];
}

-- A dispatcher of which every channel times out.
abbrev pub dispatcher : Dispatcher
dispatcher = record {
  channels = λ ch. some (λ m. refused "timeout" true);
  breaker = record { threshold = 2; cooldown = minute; state = λ ch. none };
  workers = 4;
  lease = minute;
  max_attempts = 5;
  jitter = none;
  on_dead_letter = none;
}
