-- ===== src/Invariant/Engines.antt =====
-- What the statements keep, the operations of the two engines keep.
use kerberon.Base.{ℕ, String, Option, none, some}
use kerberon.Core.Time.{Time}
use kerberon.Core.Enums.{AckVia}
use kerberon.Core.Records.{Incident, Timer, Payload, step_payload}
use kerberon.Policy.{Policy, Step, step_at}
use kerberon.Store.Tx.{Db}
use kerberon.Store.Incidents.{resolve}
use kerberon.Store.Keeps.{Keeps, keeps_rules}
use kerberon.Escalate.Engine.{
  Env, schedule_step, expire, schedule_next, payload_step, run_step, fire_step, begin,
  handle_escalate, handle_ack_timeout, schedule_ack_timeout, acknowledge,
}
use kerberon.Invariant.Pages.{resolved_users-Keeps, note_gap-Keeps, enqueue_users-Keeps}
use kerberon.Invariant.Primitive.{Primitive, load_incident-Keeps}

module _ {env : Env} {P : Db → Type 0} (keep : Primitive env P) where
  open keep use {
    timers.{insert_timer_keeps, cancel_keeps, cancel_except_keeps},
    incidents.{
      insert_incident_keeps, touch_keeps, resolve_keeps, acknowledge_keeps, snapshot_keeps,
      set_step_keeps, expire_keeps, resume_keeps,
    },
    rows.{insert_event_keeps, insert_alert_keeps, insert_ack_keeps},
  }

  schedule_step-Keeps :
      (id step : ℕ) (fire_at now : Time) → Keeps P (schedule_step id step fire_at now)
  unfolding schedule_step
  schedule_step-Keeps id step fire_at now = search (keeps_rules, insert_timer_keeps)

  expire-Keeps : (id : ℕ) (policy : Policy) (now : Time) → Keeps P (expire id policy now)
  unfolding expire
  expire-Keeps id policy now = search (keeps_rules, expire_keeps, insert_event_keeps)

  schedule_ack_timeout-Keeps :
      (id : ℕ) (o : Option Policy) (now : Time) → Keeps P (schedule_ack_timeout id o now)
  unfolding schedule_ack_timeout
  schedule_ack_timeout-Keeps id none now = search keeps_rules
  schedule_ack_timeout-Keeps id (some p) now = search (keeps_rules, insert_timer_keeps)

  pub acknowledge-Keeps :
      (id : ℕ) (user : String) (via : AckVia) (now : Time) → Keeps P (acknowledge id user via now)
  unfolding acknowledge
  acknowledge-Keeps id user via now =
      search
        (
          keeps_rules,
          acknowledge_keeps,
          cancel_keeps,
          insert_ack_keeps,
          load_incident-Keeps P,
          schedule_ack_timeout-Keeps,
          insert_event_keeps,
        )
        depth 9

  pub resolve-Keeps : (id : ℕ) (by : String) (now : Time) → Keeps P (resolve id by now)
  unfolding resolve
  resolve-Keeps id by now = search (keeps_rules, resolve_keeps, cancel_keeps, insert_event_keeps)

  pub schedule_next-Keeps :
      (now : Time) (inc : Incident) (policy : Policy) (next : ℕ)
      → Keeps P (schedule_next env now inc policy next)
  unfolding schedule_next
  schedule_next-Keeps now inc policy next = search (keeps_rules, insert_timer_keeps)

  run_step-Keeps :
      (now : Time) (inc : Incident) (policy : Policy) (index : ℕ) (step : Step) (pass : ℕ)
      → Keeps P (run_step env now inc policy index step pass)
  unfolding run_step
  run_step-Keeps now inc policy index step pass =
      search
        (
          keeps_rules,
          resolved_users-Keeps,
          note_gap-Keeps keep.rows keep.outbox,
          enqueue_users-Keeps keep.rows keep.outbox,
          set_step_keeps,
          insert_event_keeps,
          schedule_next-Keeps,
        )
        depth 9

  fire_step-Keeps :
      (now : Time) (inc : Incident) (policy : Policy) (index : ℕ)
      → Keeps P (fire_step env now inc policy index)
  unfolding fire_step
  fire_step-Keeps now inc policy index = by_step (step_at policy index)
    where
      by_step :
          (o : Option (Step × ℕ))
          → Keeps P (elim o [
            | none ↦ expire inc.id policy now
            | some (step, pass) ↦ run_step env now inc policy index step pass
          ])
      by_step none = expire-Keeps inc.id policy now
      by_step (some (step, pass)) = run_step-Keeps now inc policy index step pass

  pub begin-Keeps :
      (now : Time) (inc : Incident) (policy : Policy) → Keeps P (begin env now inc policy)
  unfolding begin
  begin-Keeps now inc policy = search (keeps_rules, snapshot_keeps, fire_step-Keeps)

  payload_step-Keeps : (p : Payload) → Keeps P (payload_step p)
  payload_step-Keeps Payload.empty = search keeps_rules
  payload_step-Keeps Payload.corrupt = search keeps_rules
  payload_step-Keeps (step_payload n) = search keeps_rules

  pub handle_escalate-Keeps : (now : Time) (t : Timer) → Keeps P (handle_escalate env now t)
  unfolding handle_escalate
  handle_escalate-Keeps now t =
      search (keeps_rules, load_incident-Keeps P, payload_step-Keeps, fire_step-Keeps) depth 9

  pub handle_ack_timeout-Keeps : (now : Time) (t : Timer) → Keeps P (handle_ack_timeout env now t)
  unfolding handle_ack_timeout
  handle_ack_timeout-Keeps now t =
      search (keeps_rules, load_incident-Keeps P, resume_keeps, insert_event_keeps, fire_step-Keeps)
        depth 9
