-- ===== src/Store/Retention.antt =====
-- internal/store/retention.go: the deletion of old incidents, under the foreign keys of the schema
-- (internal/store/migrations/0001_initial.sql). Timers, notifications, acks and events cascade with
-- their incident; the reference of an alert has no such clause, so an incident that an alert still
-- refers to cannot be deleted.
use kerberon.Base.{
  ℕ, ◌==◌, Bool, true, false, not, ◌&&◌, none, some, filter, any, count, if◌then◌else◌, ltb,
}
use kerberon.Core.Time.{Time, to_unix}
use kerberon.Core.Enums.{IncidentStatus, resolved, expired, suppressed}
use kerberon.Core.Records.{Alert, Incident, Timer, Notification, Ack, Event}
use kerberon.Store.Tx.{Db, Tx, ok, err, ◌>>=◌, foreign_key}

abbrev pub is_closed : IncidentStatus → Bool
is_closed resolved = true
is_closed expired = true
is_closed suppressed = true
is_closed _ = false

-- COALESCE(resolved_at, last_alert_at, created_at); the second is never null.
abbrev pub closed_at : Incident → Time
closed_at i = elim i.resolved_at [ none ↦ i.last_alert_at | some t ↦ t ]

abbrev pub prunable : Time → Incident → Bool
prunable before i = is_closed i.status && ltb (to_unix (closed_at i)) (to_unix before)

-- Whether the incident with an id is among those to delete.
abbrev pub goes : Time → Db → ℕ → Bool
goes before db id = any (λ (i : Incident). i.id == id && prunable before i) db.incidents

abbrev pub alert_goes : Time → Db → Alert → Bool
alert_goes before db a = elim a.incident_id [ none ↦ false | some id ↦ goes before db id ]

-- DELETE FROM incidents ...
unfoldable pub delete_incidents : Time → Tx ℕ
delete_incidents before db =
    if any (alert_goes before db) db.alerts
    then err foreign_key
    else ok (
      count (prunable before) db.incidents,
      record db {
        incidents = filter (λ i. not (prunable before i)) db.incidents;
        timers = filter (λ (t : Timer). not (goes before db t.incident_id)) db.timers;
        notifications =
            filter (λ (n : Notification). not (goes before db n.incident_id)) db.notifications;
        acks = filter (λ (a : Ack). not (goes before db a.incident_id)) db.acks;
        events = filter (λ (e : Event). not (goes before db e.incident_id)) db.events;
      },
    )

abbrev pub orphan : Time → Alert → Bool
orphan before a = elim a.incident_id [
  | none ↦ ltb (to_unix a.received_at) (to_unix before)
  | some id ↦ false
]

-- DELETE FROM alerts WHERE incident_id IS NULL ...
unfoldable pub delete_orphans : Time → Tx ℕ
delete_orphans before db = ok (
  count (orphan before) db.alerts,
  record db { alerts = filter (λ a. not (orphan before a)) db.alerts },
)

unfoldable pub prune : Time → Tx (ℕ × ℕ)
unfolding delete_incidents delete_orphans
prune before = do
  incidents ← delete_incidents before
  alerts ← delete_orphans before
  λ db. ok ((incidents, alerts), db)
