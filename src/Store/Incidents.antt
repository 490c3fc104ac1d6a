-- ===== src/Store/Incidents.antt =====
-- internal/store/incidents.go: incidents and their timeline.
use kerberon.Base.{
  ℕ, ◌+◌, ◌==◌, String, str_eq, Bool, true, false, not, ◌&&◌, none, some, List, [], ◌∷◌, ◌++◌, take,
  filter, find, any, count, if◌then◌else◌, ltb, leb, ◌||◌,
}
use kerberon.Base.Sort.{sort}
use kerberon.Core.Time.{Time, to_unix, stored}
use kerberon.Core.Enums.{
  IncidentStatus, triggered, acknowledged, resolved, expired, severity_valid, incident_status_valid,
  is_open, EventKind,
}
use kerberon.Core.Records.{Incident, Event, Detail, closed_by}
use kerberon.Policy.{Snapshot}
use kerberon.Store.Table.{update, next_id}
use kerberon.Store.Timers.{cancel_incident_timers}
use kerberon.Store.Tx.{
  Db, Tx, Result, ok, err, pure, ◌>>=◌, ◌>>◌, has_incident, invalid_severity,
  invalid_incident_status, requires, foreign_key, unique_violation, no_open_incident, no_rows,
}

-- The predicate of the partial unique index on the group key.
abbrev pub occupies : String → Incident → Bool
occupies key i = str_eq i.group_key key && is_open i.status

abbrev pub incident_is : ℕ → Incident → Bool
incident_is id i = i.id == id

unfoldable pub insert_incident : Incident → Tx ℕ
insert_incident i db =
    if not (severity_valid i.severity)
    then err (invalid_severity i.severity)
    else if not (incident_status_valid i.status)
    then err (invalid_incident_status i.status)
    else if str_eq i.group_key ""
    then err (requires "group key")
    else if is_open i.status && any (occupies i.group_key) db.incidents
    then err unique_violation
    else ok (id, record db { incidents = db.incidents ++ row ∷ [] })
  where
    id : ℕ
    id = next_id (λ (r : Incident). r.id) db.incidents

    row : Incident
    row = record i {
      id = id;
      created_at = stored i.created_at;
      acknowledged_at = none;
      acknowledged_by = "";
      resolved_at = none;
      resolved_by = "";
      last_alert_at = stored i.last_alert_at;
    }

unfoldable pub open_incident_by_group_key : String → Tx Incident
open_incident_by_group_key key db = elim (find (occupies key) db.incidents) [
  | none ↦ err no_open_incident
  | some i ↦ ok (i, db)
]

unfoldable pub load_incident : ℕ → Tx Incident
load_incident id db = elim (find (incident_is id) db.incidents) [
  | none ↦ err no_rows
  | some i ↦ ok (i, db)
]

-- `Incident`, on the read pool.
unfoldable pub incident : Db → ℕ → Result Incident
incident db id = elim (find (incident_is id) db.incidents) [ none ↦ err no_rows | some i ↦ ok i ]

-- UPDATE incidents SET ... WHERE id = ? AND p
abbrev pub update_incident : ℕ → (Incident → Bool) → (Incident → Incident) → Db → Db
update_incident id p f db = record db {
  incidents = update (λ i. incident_is id i && p i) f db.incidents;
}

-- The number of rows that such a statement affects.
abbrev pub affected : ℕ → (Incident → Bool) → Db → ℕ
affected id p db = count (λ i. incident_is id i && p i) db.incidents

abbrev pub touch_row : Time → ℕ → ℕ → Incident → Incident
touch_row at alert_increment dedup_increment i = record i {
  last_alert_at = stored at;
  alert_count = i.alert_count + alert_increment;
  dedup_count = i.dedup_count + dedup_increment;
}

unfoldable pub touch_incident : ℕ → Time → ℕ → ℕ → Tx Unit
touch_incident id at alert_increment dedup_increment db =
    ok (tt, update_incident id (λ _. true) (touch_row at alert_increment dedup_increment) db)

abbrev pub is_status_open : Incident → Bool
is_status_open i = is_open i.status

abbrev pub is_triggered : Incident → Bool
is_triggered i = elim i.status [ triggered ↦ true | _ ↦ false ]

abbrev pub is_acknowledged : Incident → Bool
is_acknowledged i = elim i.status [ acknowledged ↦ true | _ ↦ false ]

abbrev pub resolve_row : Time → String → Incident → Incident
resolve_row at by i = record i {
  status = resolved;
  resolved_at = some (stored at);
  resolved_by = by;
}

unfoldable pub resolve_incident : ℕ → Time → String → Tx Bool
resolve_incident id at by db = ok (
  ltb 0 (affected id is_status_open db),
  update_incident id is_status_open (resolve_row at by) db,
)

abbrev pub acknowledge_row : Time → String → Incident → Incident
acknowledge_row at user i = record i {
  status = acknowledged;
  acknowledged_at = some (stored at);
  acknowledged_by = user;
}

unfoldable pub acknowledge_incident : ℕ → Time → String → Tx Bool
acknowledge_incident id at user db = ok (
  ltb 0 (affected id is_triggered db),
  update_incident id is_triggered (acknowledge_row at user) db,
)

-- The statements of internal/escalate/escalate.go on the table.
unfoldable pub store_snapshot : ℕ → Snapshot → Tx Unit
store_snapshot id s db = ok (
  tt,
  update_incident id (λ _. true) (λ i. record i { policy_snapshot = s; current_step = 0 }) db,
)

unfoldable pub set_current_step : ℕ → ℕ → Tx Unit
set_current_step id step db =
    ok (tt, update_incident id (λ _. true) (λ i. record i { current_step = step }) db)

unfoldable pub expire_incident : ℕ → Tx Bool
expire_incident id db = ok (
  ltb 0 (affected id is_triggered db),
  update_incident id is_triggered (λ i. record i { status = expired }) db,
)

unfoldable pub resume_incident : ℕ → Tx Unit
resume_incident id db =
    ok (tt, update_incident id is_acknowledged (λ i. record i { status = triggered }) db)

unfoldable pub insert_event : ℕ → EventKind → Detail → Time → Tx Unit
insert_event incident_id kind detail at db =
    if has_incident incident_id db
    then ok (tt, record db { events = db.events ++ row ∷ [] })
    else err foreign_key
  where
    row : Event
    row = record {
      id = next_id (λ (e : Event). e.id) db.events;
      incident_id = incident_id;
      kind = kind;
      detail = detail;
      created_at = stored at;
    }

-- `Resolve`: an operator closes an incident, with everything that is pending for it.
unfoldable pub resolve : ℕ → String → Time → Tx Bool
unfolding resolve_incident cancel_incident_timers insert_event
resolve id by now = do
  closed ← resolve_incident id now by
  if not closed then pure false else do
    cancel_incident_timers id now []
    insert_event id EventKind.resolved (closed_by by) now
    pure true

-- ORDER BY created_at DESC, id DESC
abbrev newer : Incident → Incident → Bool
newer a b =
    ltb (to_unix b.created_at) (to_unix a.created_at)
    || (to_unix a.created_at == to_unix b.created_at && leb b.id a.id)

-- `Incidents`, with the statuses as a test and 0 for no limit.
unfoldable pub list_incidents : Db → (IncidentStatus → Bool) → ℕ → List Incident
list_incidents db wanted limit =
    let found : List Incident =
      sort newer (filter (λ (i : Incident). wanted i.status) db.incidents) in
    if limit == 0 then found else take limit found
