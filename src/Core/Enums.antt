-- ===== src/Core/Enums.antt =====
-- The enumerations of internal/core/core.go. A Go value of such a type is a string; `other s` stands
-- for a string `s` that is none of the named constants, which is what `Valid` rules out.
use kerberon.Base.{String, ◌≡◌, refl, Bool, true, false, str_eq, eq_iff, arith}

pub data Source : Type 0 where
  alertmanager grafana generic heartbeat : Source
  other : String → Source

abbrev pub source_valid : Source → Bool
source_valid (other _) = false
source_valid _ = true

pub data AlertStatus : Type 0 where
  firing resolved : AlertStatus
  other : String → AlertStatus

abbrev pub alert_status_valid : AlertStatus → Bool
alert_status_valid (other _) = false
alert_status_valid _ = true

pub data Severity : Type 0 where
  critical warning info : Severity
  other : String → Severity

abbrev pub severity_valid : Severity → Bool
severity_valid (other _) = false
severity_valid _ = true

-- A node of the escalation state machine.
pub data IncidentStatus : Type 0 where
  triggered acknowledged resolved expired suppressed : IncidentStatus
  other : String → IncidentStatus

abbrev pub incident_status_valid : IncidentStatus → Bool
incident_status_valid (other _) = false
incident_status_valid _ = true

-- The two states in which an incident occupies its group key.
abbrev pub is_open : IncidentStatus → Bool
is_open triggered = true
is_open acknowledged = true
is_open _ = false

pub data TimerKind : Type 0 where
  escalate group_wait resolve_timeout repeat : TimerKind
  other : String → TimerKind

abbrev pub timer_kind_valid : TimerKind → Bool
timer_kind_valid (other _) = false
timer_kind_valid _ = true

-- Equality of the strings, as `kind IN (...)` of a query compares them.
abbrev pub kind_eq : TimerKind → TimerKind → Bool
kind_eq escalate escalate = true
kind_eq group_wait group_wait = true
kind_eq resolve_timeout resolve_timeout = true
kind_eq repeat repeat = true
kind_eq (other a) (other b) = str_eq a b
kind_eq _ _ = false

pub data NotificationState : Type 0 where
  pending sending sent failed dead : NotificationState
  other : String → NotificationState

abbrev pub notification_state_valid : NotificationState → Bool
notification_state_valid (other _) = false
notification_state_valid _ = true

pub data Channel : Type 0 where
  ntfy telegram email webhook sms voice : Channel
  other : String → Channel

abbrev pub channel_valid : Channel → Bool
channel_valid (other _) = false
channel_valid _ = true

abbrev pub channel_eq : Channel → Channel → Bool
channel_eq ntfy ntfy = true
channel_eq telegram telegram = true
channel_eq email email = true
channel_eq webhook webhook = true
channel_eq sms sms = true
channel_eq voice voice = true
channel_eq (other a) (other b) = str_eq a b
channel_eq _ _ = false

pub channel_eq_sound : (a b : Channel) → channel_eq a b ≡ true → a ≡ b
channel_eq_sound (other a) (other b) h = ground (arith, eq_iff a b)
channel_eq_sound _ _ h = ground arith

pub channel_eq_refl : (a : Channel) → channel_eq a a ≡ true
channel_eq_refl (other a) = (eq_iff a a).1 refl
channel_eq_refl _ = refl

pub data AckVia : Type 0 where
  link api ui telegram_button : AckVia
  other : String → AckVia

abbrev pub ack_via_valid : AckVia → Bool
ack_via_valid (other _) = false
ack_via_valid _ = true

pub data HeartbeatState : Type 0 where
  healthy missing never_seen : HeartbeatState
  other : String → HeartbeatState

abbrev pub heartbeat_state_valid : HeartbeatState → Bool
heartbeat_state_valid (other _) = false
heartbeat_state_valid _ = true

pub data TargetKind : Type 0 where
  schedule user team : TargetKind
  other : String → TargetKind

abbrev pub target_kind_valid : TargetKind → Bool
target_kind_valid (other _) = false
target_kind_valid _ = true

pub data EventKind : Type 0 where
  created escalated notified acked resolved expired grouped suppressed : EventKind
