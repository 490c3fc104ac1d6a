-- ===== src/Store/Tx.antt =====
-- The database, and a transaction on it (`DB.Tx` of internal/store/store.go). A transaction reads and
-- writes the rows and may fail; on an error the state that it has built is dropped, which is the
-- rollback. The write pool holds one connection, so transactions do not interleave. Errors of the
-- driver itself are not modelled.
use kerberon.Base.{ℕ, ◌==◌, Bool, Option, none, some, List, [], any, String}
use kerberon.Core.Records.{Alert, Incident, Timer, Notification, Ack, Override, Heartbeat, Event}
use kerberon.Core.Enums.{
  TimerKind, Severity, IncidentStatus, AlertStatus, Channel, NotificationState, Source,
}

pub data Error : Type 0 where
  invalid_timer_kind : TimerKind → Error
  invalid_severity : Severity → Error
  invalid_incident_status : IncidentStatus → Error
  invalid_alert_status : AlertStatus → Error
  invalid_source : Source → Error
  invalid_channel : Channel → Error
  invalid_notification_state : NotificationState → Error
  -- A required field is missing; the text names it.
  requires : String → Error
  -- The constraints of the schema.
  foreign_key unique_violation : Error
  -- The sentinels of the packages.
  no_rows timer_not_pending no_open_incident duplicate_notification : Error
  not_acknowledgeable self_cancelled unknown_heartbeat : Error
  no_policy bad_payload : Error
  -- An error of code that the model takes as a parameter.
  external : String → Error

pub data Result (A : Type 0) : Type 0 where
  ok : A → Result A
  err : Error → Result A

pub record Db : Type 0 where
  pub incidents : List Incident
  pub alerts : List Alert
  pub timers : List Timer
  pub notifications : List Notification
  pub acks : List Ack
  pub overrides : List Override
  pub heartbeats : List Heartbeat
  pub events : List Event

abbrev pub Tx : Type 0 → Type 0
Tx A = Db → Result (A × Db)

abbrev pub pure : {A : Type 0} → A → Tx A
pure a db = ok (a, db)

abbrev pub fail : {A : Type 0} → Error → Tx A
fail e db = err e

abbrev pub gets : {A : Type 0} → (Db → A) → Tx A
gets f db = ok (f db, db)

abbrev pub continue : {A B : Type 0} → Result (A × Db) → (A → Tx B) → Result (B × Db)
continue (ok (a, db)) f = f a db
continue (err e) f = err e

infixl 10 ◌>>=◌ ◌>>◌
abbrev pub ◌>>=◌ : {A B : Type 0} → Tx A → (A → Tx B) → Tx B
◌>>=◌ m f db = continue (m db) f

abbrev pub ◌>>◌ : {A B : Type 0} → Tx A → Tx B → Tx B
m >> n = m >>= λ _. n

abbrev pub lift : {A : Type 0} → Error → Option A → Tx A
lift e none = fail e
lift e (some a) = pure a

-- Commit on success, roll back on an error.
abbrev pub outcome : {A : Type 0} → Result (A × Db) → Db → Result A × Db
outcome (ok (a, db')) db = (ok a, db')
outcome (err e) db = (err e, db)

unfoldable pub commit : {A : Type 0} → Tx A → Db → Result A × Db
commit m db = outcome (m db) db

-- The foreign key of every table that belongs to an incident.
abbrev pub has_incident : ℕ → Db → Bool
has_incident id db = any (λ (i : Incident). i.id == id) db.incidents

abbrev pub empty_db : Db
empty_db = record {
  incidents = [];
  alerts = [];
  timers = [];
  notifications = [];
  acks = [];
  overrides = [];
  heartbeats = [];
  events = [];
}
