-- ===== src/Store/Alerts.antt =====
-- internal/store/alerts.go: the alerts, and whether all of an incident's have resolved.
use kerberon.Base.{
  ℕ, ◌==◌, String, str_eq, Bool, true, false, not, ◌&&◌, Option, none, some, List, [], ◌∷◌, ◌++◌,
  filter, any, count, if◌then◌else◌,
}
use kerberon.Core.Time.{stored, stored_opt}
use kerberon.Core.Enums.{firing, alert_status_valid, source_valid}
use kerberon.Core.Records.{Alert}
use kerberon.Store.Table.{max_id, next_id}
use kerberon.Store.Tx.{
  Db, Tx, ok, err, has_incident, invalid_source, invalid_alert_status, requires, foreign_key,
}

-- A null reference satisfies the foreign key.
abbrev pub refers : Option ℕ → Db → Bool
refers none db = true
refers (some id) db = has_incident id db

unfoldable pub insert_alert : Alert → Tx ℕ
insert_alert a db =
    if not (source_valid a.source)
    then err (invalid_source a.source)
    else if not (alert_status_valid a.status)
    then err (invalid_alert_status a.status)
    else if str_eq a.fingerprint ""
    then err (requires "fingerprint")
    else if refers a.incident_id db
    then ok (id, record db { alerts = db.alerts ++ row ∷ [] })
    else err foreign_key
  where
    id : ℕ
    id = next_id (λ (r : Alert). r.id) db.alerts

    row : Alert
    row = record a {
      id = id;
      starts_at = stored a.starts_at;
      ends_at = stored_opt a.ends_at;
      received_at = stored a.received_at;
    }

abbrev pub opt_is : Option ℕ → ℕ → Bool
opt_is none id = false
opt_is (some i) id = i == id

abbrev pub belongs : ℕ → Alert → Bool
belongs incident_id a = opt_is a.incident_id incident_id

-- An alert of the incident with this fingerprint.
abbrev pub repeats : ℕ → String → Alert → Bool
repeats incident_id fingerprint a = belongs incident_id a && str_eq a.fingerprint fingerprint

unfoldable pub has_fingerprint : Db → ℕ → String → Bool
has_fingerprint db incident_id fingerprint = any (repeats incident_id fingerprint) db.alerts

-- The newest alert of a fingerprint within an incident, by its id.
abbrev pub latest_id : List Alert → ℕ → String → ℕ
latest_id rows incident_id fingerprint =
    max_id (λ (a : Alert). a.id) (filter (repeats incident_id fingerprint) rows)

abbrev pub is_firing : Alert → Bool
is_firing a = elim a.status [ firing ↦ true | _ ↦ false ]

-- The rows that the query counts: the newest of their fingerprint, and firing.
abbrev pub still_firing : List Alert → ℕ → Alert → Bool
still_firing rows incident_id a =
    belongs incident_id a && a.id == latest_id rows incident_id a.fingerprint && is_firing a

unfoldable pub all_alerts_resolved : Db → ℕ → Bool
all_alerts_resolved db incident_id =
    if count (belongs incident_id) db.alerts == 0
    then false
    else count (still_firing db.alerts incident_id) db.alerts == 0
