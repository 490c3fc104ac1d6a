-- ===== src/Invariant/Primitive.antt =====
-- The statements that the engines are made of. A property of the database that each of them keeps is
-- kept by whatever is built from them; that is the interface between the store and the engines.
use kerberon.Base.{ℕ, String, List}
use kerberon.Core.Time.{Time, Duration}
use kerberon.Core.Enums.{TimerKind, AckVia, EventKind, Channel}
use kerberon.Core.Records.{Incident, Timer, Detail, Alert}
use kerberon.Policy.{Snapshot}
use kerberon.Store.Tx.{Db}
use kerberon.Store.Timers.{
  insert_timer, load_pending_timer, complete_timer, cancel_incident_timers,
  cancel_incident_timers_except,
}
use kerberon.Store.Incidents.{
  insert_incident, load_incident, touch_incident, resolve_incident, acknowledge_incident,
  store_snapshot, set_current_step, expire_incident, resume_incident, insert_event,
}
use kerberon.Store.Alerts.{insert_alert}
use kerberon.Store.Notifications.{
  enqueue_notification, claim_due_notifications, mark_notification_sent, mark_notification_failed,
  mark_notification_dead,
}
use kerberon.Store.Keeps.{Keeps}
use kerberon.Escalate.Engine.{Env, page, insert_ack}
use kerberon.Base.{arith}

pub record TimerStatements (P : Db → Type 0) : Type 0 where
  pub insert_timer_keeps : (t : Timer) → Keeps P (insert_timer t)
  pub complete_timer_keeps : (id : ℕ) (at : Time) → Keeps P (complete_timer id at)
  pub cancel_keeps :
      (id : ℕ) (at : Time) (kinds : List TimerKind) → Keeps P (cancel_incident_timers id at kinds)
  pub cancel_except_keeps :
      (id except : ℕ) (at : Time) (kinds : List TimerKind)
      → Keeps P (cancel_incident_timers_except id except at kinds)

pub record IncidentStatements (P : Db → Type 0) : Type 0 where
  pub insert_incident_keeps : (i : Incident) → Keeps P (insert_incident i)
  pub touch_keeps : (id : ℕ) (at : Time) (n m : ℕ) → Keeps P (touch_incident id at n m)
  pub resolve_keeps : (id : ℕ) (at : Time) (by : String) → Keeps P (resolve_incident id at by)
  pub acknowledge_keeps :
      (id : ℕ) (at : Time) (user : String) → Keeps P (acknowledge_incident id at user)
  pub snapshot_keeps : (id : ℕ) (s : Snapshot) → Keeps P (store_snapshot id s)
  pub set_step_keeps : (id step : ℕ) → Keeps P (set_current_step id step)
  pub expire_keeps : (id : ℕ) → Keeps P (expire_incident id)
  pub resume_keeps : (id : ℕ) → Keeps P (resume_incident id)

pub record RowStatements (P : Db → Type 0) : Type 0 where
  pub insert_event_keeps :
      (id : ℕ) (kind : EventKind) (d : Detail) (at : Time) → Keeps P (insert_event id kind d at)
  pub insert_alert_keeps : (a : Alert) → Keeps P (insert_alert a)
  pub insert_ack_keeps :
      (id : ℕ) (user : String) (via : AckVia) (at : Time) → Keeps P (insert_ack id user via at)

-- A page is put in the outbox as the engine makes it, and the dispatcher claims and marks it.
pub record OutboxStatements (env : Env) (P : Db → Type 0) : Type 0 where
  pub enqueue_keeps :
      (now : Time) (inc : Incident) (index pass : ℕ) (user : String) (ch : Channel) (dest : String)
      → Keeps P (enqueue_notification (page env now inc index pass user ch dest))
  pub claim_keeps :
      (now : Time) (lease : Duration) (limit : ℕ)
      → Keeps P (claim_due_notifications now lease limit)
  pub sent_keeps : (id : ℕ) (at : Time) → Keeps P (mark_notification_sent id at)
  pub failed_keeps :
      (id : ℕ) (retry_at : Time) (cause : String)
      → Keeps P (mark_notification_failed id retry_at cause)
  pub dead_keeps : (id : ℕ) (cause : String) → Keeps P (mark_notification_dead id cause)

pub record Primitive (env : Env) (P : Db → Type 0) : Type 0 where
  pub timers : TimerStatements P
  pub incidents : IncidentStatements P
  pub rows : RowStatements P
  pub outbox : OutboxStatements env P

-- The two that only read.
module _ (P : Db → Type 0) where
  pub load_incident-Keeps : (id : ℕ) → Keeps P (load_incident id)
  unfolding load_incident
  load_incident-Keeps id = record { at = λ db h. ground arith }

  pub load_pending_timer-Keeps : (id : ℕ) → Keeps P (load_pending_timer id)
  unfolding load_pending_timer
  load_pending_timer-Keeps id = record { at = λ db h. ground arith }
