-- ===== src/Invariant/Tables.antt =====
-- A statement leaves the tables alone that it does not name. So a property of the incidents is kept by
-- the statements on timers and on other rows, and likewise for a property of the timers or of the
-- outbox.
use kerberon.Base.{List, arith}
use kerberon.Core.Records.{Incident, Timer, Notification}
use kerberon.Store.Timers.{
  insert_timer, complete_timer, cancel_incident_timers, cancel_incident_timers_except,
}
use kerberon.Store.Incidents.{
  insert_incident, touch_incident, resolve_incident, acknowledge_incident, store_snapshot,
  set_current_step, expire_incident, resume_incident, insert_event,
}
use kerberon.Store.Alerts.{insert_alert}
use kerberon.Store.Notifications.{
  enqueue_notification, claim_due_notifications, mark_notification_sent, mark_notification_failed,
  mark_notification_dead,
}
use kerberon.Escalate.Engine.{Env, insert_ack}
use kerberon.Invariant.Primitive.{
  TimerStatements, IncidentStatements, RowStatements, OutboxStatements,
}

module _ (Q : List Incident → Type 0) where
  pub timers_keep_incidents : TimerStatements (λ db. Q db.incidents)
  unfolding insert_timer complete_timer cancel_incident_timers cancel_incident_timers_except
  timers_keep_incidents = record {
    insert_timer_keeps = λ t. record { at = λ db h. ground arith };
    complete_timer_keeps = λ id at. record { at = λ db h. ground arith };
    cancel_keeps = λ id at kinds. record { at = λ db h. h };
    cancel_except_keeps = λ id except at kinds. record { at = λ db h. h };
  }

  pub rows_keep_incidents : RowStatements (λ db. Q db.incidents)
  unfolding insert_event insert_alert insert_ack
  rows_keep_incidents = record {
    insert_event_keeps = λ id kind d at. record { at = λ db h. ground arith };
    insert_alert_keeps = λ a. record { at = λ db h. ground arith };
    insert_ack_keeps = λ id user via at. record { at = λ db h. ground arith };
  }

  pub outbox_keeps_incidents : {env : Env} → OutboxStatements env (λ db. Q db.incidents)
  unfolding enqueue_notification claim_due_notifications mark_notification_sent
      mark_notification_failed mark_notification_dead
  outbox_keeps_incidents = record {
    enqueue_keeps = λ now inc index pass user ch dest. record { at = λ db h. ground arith };
    claim_keeps = λ now lease limit. record { at = λ db h. h };
    sent_keeps = λ id at. record { at = λ db h. h };
    failed_keeps = λ id retry_at cause. record { at = λ db h. h };
    dead_keeps = λ id cause. record { at = λ db h. h };
  }

module _ (Q : List Timer → Type 0) where
  pub incidents_keep_timers : IncidentStatements (λ db. Q db.timers)
  unfolding insert_incident touch_incident resolve_incident acknowledge_incident store_snapshot
      set_current_step expire_incident resume_incident
  incidents_keep_timers = record {
    insert_incident_keeps = λ i. record { at = λ db h. ground arith };
    touch_keeps = λ id at n m. record { at = λ db h. h };
    resolve_keeps = λ id at by. record { at = λ db h. h };
    acknowledge_keeps = λ id at user. record { at = λ db h. h };
    snapshot_keeps = λ id s. record { at = λ db h. h };
    set_step_keeps = λ id step. record { at = λ db h. h };
    expire_keeps = λ id. record { at = λ db h. h };
    resume_keeps = λ id. record { at = λ db h. h };
  }

  pub rows_keep_timers : RowStatements (λ db. Q db.timers)
  unfolding insert_event insert_alert insert_ack
  rows_keep_timers = record {
    insert_event_keeps = λ id kind d at. record { at = λ db h. ground arith };
    insert_alert_keeps = λ a. record { at = λ db h. ground arith };
    insert_ack_keeps = λ id user via at. record { at = λ db h. ground arith };
  }

  pub outbox_keeps_timers : {env : Env} → OutboxStatements env (λ db. Q db.timers)
  unfolding enqueue_notification claim_due_notifications mark_notification_sent
      mark_notification_failed mark_notification_dead
  outbox_keeps_timers = record {
    enqueue_keeps = λ now inc index pass user ch dest. record { at = λ db h. ground arith };
    claim_keeps = λ now lease limit. record { at = λ db h. h };
    sent_keeps = λ id at. record { at = λ db h. h };
    failed_keeps = λ id retry_at cause. record { at = λ db h. h };
    dead_keeps = λ id cause. record { at = λ db h. h };
  }

module _ (Q : List Notification → Type 0) where
  pub timers_keep_outbox : TimerStatements (λ db. Q db.notifications)
  unfolding insert_timer complete_timer cancel_incident_timers cancel_incident_timers_except
  timers_keep_outbox = record {
    insert_timer_keeps = λ t. record { at = λ db h. ground arith };
    complete_timer_keeps = λ id at. record { at = λ db h. ground arith };
    cancel_keeps = λ id at kinds. record { at = λ db h. h };
    cancel_except_keeps = λ id except at kinds. record { at = λ db h. h };
  }

  pub incidents_keep_outbox : IncidentStatements (λ db. Q db.notifications)
  unfolding insert_incident touch_incident resolve_incident acknowledge_incident store_snapshot
      set_current_step expire_incident resume_incident
  incidents_keep_outbox = record {
    insert_incident_keeps = λ i. record { at = λ db h. ground arith };
    touch_keeps = λ id at n m. record { at = λ db h. h };
    resolve_keeps = λ id at by. record { at = λ db h. h };
    acknowledge_keeps = λ id at user. record { at = λ db h. h };
    snapshot_keeps = λ id s. record { at = λ db h. h };
    set_step_keeps = λ id step. record { at = λ db h. h };
    expire_keeps = λ id. record { at = λ db h. h };
    resume_keeps = λ id. record { at = λ db h. h };
  }
