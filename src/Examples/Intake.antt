-- ===== src/Examples/Intake.antt =====
-- Alerts that arrive, and incidents that are deleted.
use kerberon.Base.{
  find, ◌+◌, ◌*◌, ◌≤◌, ◌≡◌, ◌⊎◌, refl, String, Bool, true, false, some, List, [], ◌∷◌, arith,
  length, any, if◌then◌else◌,
}
use kerberon.Core.Time.{minute}
use kerberon.Core.Enums.{IncidentStatus, is_open}
use kerberon.Core.Records.{Alert, Incident}
use kerberon.Alert.{fingerprint, is_volatile}
use kerberon.Alert.Identity.{volatile_labels_ignored}
use kerberon.Alert.Text.{to_lower, contains_text}
use kerberon.Route.{group_key, match_route, matches}
use kerberon.Store.Tx.{Db, Error, ok, commit}
use kerberon.Store.Incidents.{occupies}
use kerberon.Group.Ingest.{ingest, route_all}
use kerberon.Group.Counts.{ingest_counts_all}
use kerberon.Group.Burst.{burst_opens_one}
use kerberon.System.{group_env}
use kerberon.Group.Engine.{attach_to_incident, keep_open, handle_resolve_timeout, close_incident}
use kerberon.Group.Grace.{Shut, handle_resolve_timeout-Shut}
use kerberon.Group.Flapping.{NoGrace, attach_to_incident-NoGrace}
use kerberon.Store.Alerts.{all_alerts_resolved, has_fingerprint, insert_alert}
use kerberon.Store.Timers.{timer_is, cancel_incident_timers, cancel_incident_timers_except}
use kerberon.Store.Incidents.{resolve_incident, insert_event, touch_incident}
use kerberon.Core.Records.{Timer, Payload}
use kerberon.Core.Enums.{TimerKind, AlertStatus}
use kerberon.Examples.Data.{rung_timer, config, route, alert, incident, db}

abbrev burst : List Alert
burst = alert ∷ alert ∷ alert ∷ []

ingest_counts_all_example :
    ((ingest (group_env config) (91 * minute) (route ∷ []) burst db).0.0.alerts_accepted
        + (ingest (group_env config) (91 * minute) (route ∷ []) burst db).0.0.unrouted
      ≡ 3)
    ⊎ ((e : Error) × ((ingest (group_env config) (91 * minute) (route ∷ []) burst db).0.1 ≡ some e)
        × ((ingest (group_env config) (91 * minute) (route ∷ []) burst db).0.0.alerts_accepted
              + (ingest (group_env config) (91 * minute) (route ∷ []) burst db).0.0.unrouted
            ≤ 3))
ingest_counts_all_example = ingest_counts_all (group_env config) (91 * minute) (route ∷ []) burst db

abbrev disk_key : String
disk_key = group_key (λ s. s) route alert.labels

burst_opens_one_example :
    length (ingest (group_env config) (91 * minute) (route ∷ []) burst db).1.incidents
    ≤ length db.incidents + (if any (occupies disk_key) db.incidents then 0 else 1)
unfolding route_all match_route matches
burst_opens_one_example =
    burst_opens_one (group_env config) (91 * minute) (route ∷ []) burst db disk_key
      (refl, (refl, (refl, tt)))

volatile_labels_ignored_example :
    (fingerprint (λ s. s) (("team", "db") ∷ ("Pod", "db-1") ∷ []) ("pod" ∷ [])
      ≡ fingerprint (λ s. s) (("team", "db") ∷ []) ("pod" ∷ []))
    × (fingerprint (λ s. s) (("team", "db") ∷ ("Pod", "db-1") ∷ []) ("pod" ∷ [])
        ≡ fingerprint (λ s. s) (("team", "db") ∷ ("Pod", "db-2") ∷ []) ("pod" ∷ []))
unfolding is_volatile to_lower contains_text
volatile_labels_ignored_example =
    volatile_labels_ignored (λ s. s) ("pod" ∷ []) (("team", "db") ∷ []) [] "Pod" "db-1" "db-2" refl

-- ─── Deletion ───

abbrev old_incident : Incident
old_incident = record incident {
  id = 2;
  status = IncidentStatus.resolved;
  resolved_at = some (92 * minute);
}

abbrev old_db : Db
old_db = record db { incidents = incident ∷ old_incident ∷ [] }

abbrev still_open : Incident → Bool
still_open i = is_open i.status

-- ─── Resolution and return ───

abbrev grace_timer : Timer
grace_timer = record rung_timer {
  id = 2;
  kind = TimerKind.resolve_timeout;
  payload = Payload.empty;
}

abbrev quiet_db : Db
quiet_db = record db {
  timers = rung_timer ∷ grace_timer ∷ [];
  alerts =
      record alert {
        id = 1;
        fingerprint = "f";
        status = AlertStatus.resolved;
        incident_id = some 1;
      }
      ∷ [];
}

grace_ends : (commit (handle_resolve_timeout (100 * minute) grace_timer) quiet_db).0 ≡ ok tt
unfolding commit handle_resolve_timeout close_incident all_alerts_resolved resolve_incident
    cancel_incident_timers_except insert_event
grace_ends = refl

handle_resolve_timeout-Shut_example :
    ((all_alerts_resolved quiet_db 1 ≡ false)
      × ((commit (handle_resolve_timeout (100 * minute) grace_timer) quiet_db).1 ≡ quiet_db))
    ⊎ ((all_alerts_resolved quiet_db 1 ≡ true)
        × Shut grace_timer
            (find (timer_is 2) quiet_db.timers)
            (commit (handle_resolve_timeout (100 * minute) grace_timer) quiet_db).1)
handle_resolve_timeout-Shut_example =
    handle_resolve_timeout-Shut (100 * minute) grace_timer quiet_db (omega arith) grace_ends

abbrev returned : Alert
returned = record alert { fingerprint = "f" }

rejoined : (commit (attach_to_incident returned route incident (99 * minute)) quiet_db).0 ≡ ok true
unfolding commit attach_to_incident has_fingerprint insert_alert touch_incident keep_open
    cancel_incident_timers cancel_incident_timers_except insert_event
rejoined = refl

attach_to_incident-NoGrace_example :
    NoGrace 1 (commit (attach_to_incident returned route incident (99 * minute)) quiet_db).1
attach_to_incident-NoGrace_example =
    attach_to_incident-NoGrace returned route incident (99 * minute) quiet_db true refl rejoined
