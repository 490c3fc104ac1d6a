-- ===== src/Core/Records.antt =====
-- The records of internal/core/core.go. Ids and counts are natural numbers; an id that is not set
-- is 0, as in Go. `Raw` of an alert, which nothing reads, is left out.
use kerberon.Base.{ℕ, ltb, leb, String, Bool, true, false, ◌&&◌, Option, none, some, List, ◌+◌}
use kerberon.Core.Time.{Time, Duration}
use kerberon.Core.Enums.{
  Source, AlertStatus, Severity, IncidentStatus, TimerKind, NotificationState, Channel, AckVia,
  HeartbeatState, EventKind,
}
use kerberon.Policy.{Snapshot, Target}

-- A map from strings to strings, with each key once.
abbrev pub Labels : Type 0
Labels = List (String × String)

pub record Alert : Type 0 where
  pub id : ℕ
  pub fingerprint : String
  pub source : Source
  pub status : AlertStatus
  pub labels : Labels
  pub annotations : Labels
  pub starts_at : Time
  pub ends_at : Option Time
  pub received_at : Time
  pub incident_id : Option ℕ

pub record Incident : Type 0 where
  pub id : ℕ
  pub group_key : String
  pub team : String
  pub policy : String
  pub severity : Severity
  pub title : String
  pub status : IncidentStatus
  pub policy_snapshot : Snapshot
  pub current_step : ℕ
  pub alert_count : ℕ
  pub created_at : Time
  pub acknowledged_at : Option Time
  pub acknowledged_by : String
  pub resolved_at : Option Time
  pub resolved_by : String
  pub last_alert_at : Time
  pub dedup_count : ℕ

-- The JSON in a timer's payload: absent, not a step payload, or the step that the timer stands for.
pub data Payload : Type 0 where
  empty corrupt : Payload
  step_payload : ℕ → Payload

pub record Timer : Type 0 where
  pub id : ℕ
  pub incident_id : ℕ
  pub kind : TimerKind
  pub fire_at : Time
  pub payload : Payload
  pub created_at : Time
  pub claimed_at : Option Time
  pub completed_at : Option Time
  pub cancelled_at : Option Time

abbrev is_null : Option Time → Bool
is_null none = true
is_null (some _) = false

-- `Pending`, and the condition of the queries on the table.
abbrev pub is_pending : Timer → Bool
is_pending t = is_null t.completed_at && is_null t.cancelled_at

pub record Notification : Type 0 where
  pub id : ℕ
  pub incident_id : ℕ
  pub idempotency_key : String
  pub step_index : ℕ
  pub target_user : String
  pub channel : Channel
  pub destination : String
  pub body : String
  pub title : String
  pub severity : Severity
  pub ack_url : String
  pub state : NotificationState
  pub attempts : ℕ
  pub next_attempt_at : Option Time
  pub last_error : String
  pub created_at : Time
  pub sent_at : Option Time

pub record Ack : Type 0 where
  pub id : ℕ
  pub incident_id : ℕ
  pub user_id : String
  pub via : AckVia
  pub created_at : Time

pub record Override : Type 0 where
  pub id : ℕ
  pub schedule_name : String
  pub user_id : String
  pub starts_at : Time
  pub ends_at : Time
  pub reason : String
  pub created_at : Time
  pub created_by : String

pub record Heartbeat : Type 0 where
  pub id : ℕ
  pub name : String
  pub token : String
  pub expected_interval : Duration
  pub grace_period : Duration
  pub team : String
  pub severity : Severity
  pub last_ping_at : Option Time
  pub state : HeartbeatState
  pub created_at : Time

-- `Due`: overdue at an instant. A switch that was never pinged is not late.
abbrev pub due : Heartbeat → Time → Bool
due h now = elim h.last_ping_at [
  | none ↦ false
  | some p ↦ ltb (p + (h.expected_interval + h.grace_period)) now
]

-- The JSON objects that the engine writes as details of timeline events.
pub data Detail : Type 0 where
  opened : (route group_key fingerprint : String) (group_wait : Duration) → Detail
  window_closed : (alert_count dedup_count : ℕ) → Detail
  refired : (fingerprint : String) → Detail
  all_resolved : Detail
  nobody_on_call : (step : ℕ) (targets : List Target) → Detail
  paged : (step pass : ℕ) (users : List String) (channels : List Channel) (pages : ℕ) → Detail
  unanswered : (policy : String) (passes : ℕ) → Detail
  taken : (user : String) (via : AckVia) → Detail
  ack_elapsed : (acknowledged_by : String) → Detail
  closed_by : (user : String) → Detail
  undelivered : (channel : Channel) (user cause : String) → Detail

pub record Event : Type 0 where
  pub id : ℕ
  pub incident_id : ℕ
  pub kind : EventKind
  pub detail : Detail
  pub created_at : Time

-- A span in which one user is on call, its end excluded.
pub record Interval : Type 0 where
  pub start : Time
  pub end : Time
  pub user_id : String

abbrev pub contains : Interval → Time → Bool
contains i t = leb i.start t && ltb t i.end
