-- ===== src/Examples/Paging.antt =====
-- Escalation, acknowledgement and resolution of one incident.
use kerberon.Base.{◌*◌, ◌+◌, ◌≤◌, ◌≡◌, ◌↔◌, refl, String, true, false, some, arith, length, [], ◌∷◌}
use kerberon.Core.Time.{Time, minute}
use kerberon.Core.Enums.{AckVia, Channel}
use kerberon.Policy.{step_at, exhausted, total_passes, decode_policy}
use kerberon.Store.Tx.{ok, err, commit, not_acknowledgeable}
use kerberon.Store.Timers.{insert_timer, cancel_incident_timers, cancel_incident_timers_except}
use kerberon.Store.Incidents.{
  load_incident, set_current_step, insert_event, resolve, resolve_incident, acknowledge_incident,
}
use kerberon.Store.Notifications.{enqueue_notification, insert_notification}
use kerberon.Escalate.Engine.{
  handle_escalate, fire_step, run_step, note_gap, enqueue_users, enqueue_channels, enqueue_one,
  page, schedule_next, schedule_expiry, schedule_step, acknowledge, insert_ack,
  schedule_ack_timeout,
}
use kerberon.Escalate.Rungs.{step_at-rung, exhausted_iff}
use kerberon.Escalate.Ladder.{Rung, handle_escalate-Rung}
use kerberon.Escalate.Answered.{Answered, ack_stops_escalation}
use kerberon.Escalate.Resolved.{Closed, resolve_closes}
use kerberon.Invariant.Queued.{HasPage}
use kerberon.Invariant.Paged.{fire_step_reaches_everyone}
use kerberon.Examples.Data.{env, policy, rung, rung_timer, incident, db}

step_at-rung_example : step_at policy (1 * length policy.steps + 0) ≡ some (rung, 1)
unfolding total_passes
step_at-rung_example = step_at-rung policy 1 0 refl (omega arith)

exhausted_iff_example :
    (exhausted policy 4 ≡ true) ↔ (length policy.steps * total_passes policy ≤ 4)
exhausted_iff_example = exhausted_iff policy 4

fires : (commit (handle_escalate env (95 * minute) rung_timer) db).0 ≡ ok tt
unfolding commit handle_escalate load_incident decode_policy fire_step step_at total_passes run_step
    note_gap enqueue_users enqueue_channels enqueue_one page enqueue_notification
    insert_notification set_current_step insert_event schedule_next exhausted schedule_expiry
    schedule_step insert_timer
fires = refl

second_rung : step_at policy 1 ≡ some (rung, 0)
unfolding step_at total_passes
second_rung = refl

rung_commits : (commit (fire_step env (95 * minute) incident policy 1) db).0 ≡ ok tt
unfolding commit fire_step step_at total_passes run_step note_gap enqueue_users enqueue_channels
    enqueue_one page enqueue_notification insert_notification set_current_step insert_event
    schedule_next exhausted schedule_expiry schedule_step insert_timer
rung_commits = refl

fire_step_reaches_everyone_example :
    HasPage "ann/1/0" (commit (fire_step env (95 * minute) incident policy 1) db).1.notifications
fire_step_reaches_everyone_example =
    fire_step_reaches_everyone env (95 * minute) incident policy 1 rung 0 ("ann" ∷ []) db 0 0 "ann"
      Channel.ntfy "topic" second_rung refl refl refl refl refl rung_commits

handle_escalate-Rung_example :
    Rung policy 1
      (95 * minute)
      db.timers
      1
      (commit (handle_escalate env (95 * minute) rung_timer) db).1
handle_escalate-Rung_example =
    handle_escalate-Rung env (95 * minute) rung_timer db incident policy 1 (refl, refl) refl
      (omega arith) refl fires

acked : (commit (acknowledge 1 "ann" AckVia.link (96 * minute)) db).0 ≡ ok tt
unfolding commit acknowledge acknowledge_incident cancel_incident_timers
    cancel_incident_timers_except insert_ack load_incident schedule_ack_timeout decode_policy
    insert_timer insert_event
acked = refl

ack_stops_escalation_example :
    Answered 1 (commit (acknowledge 1 "ann" AckVia.link (96 * minute)) db).1
    × ((user : String) (via : AckVia) (now : Time)
        → commit
            (acknowledge 1 user via now)
            (commit (acknowledge 1 "ann" AckVia.link (96 * minute)) db).1
          ≡ (
            err not_acknowledgeable,
            (commit (acknowledge 1 "ann" AckVia.link (96 * minute)) db).1,
          ))
ack_stops_escalation_example = ack_stops_escalation 1 "ann" AckVia.link (96 * minute) db acked

resolved : (commit (resolve 1 "ann" (97 * minute)) db).0 ≡ ok true
unfolding commit resolve resolve_incident cancel_incident_timers cancel_incident_timers_except
    insert_event
resolved = refl

resolve_closes_example :
    Closed 1 (commit (resolve 1 "ann" (97 * minute)) db).1
    × ((by : String) (now : Time)
        → (commit (resolve 1 by now) (commit (resolve 1 "ann" (97 * minute)) db).1).0 ≡ ok false)
resolve_closes_example = resolve_closes 1 "ann" (97 * minute) db resolved
