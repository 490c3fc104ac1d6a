-- ===== src/Store/Heartbeats.antt =====
-- internal/store/heartbeats.go: the dead-man's switches.
use kerberon.Base.{
  ℕ, ◌+◌, ◌==◌, String, str_eq, Bool, true, false, ◌&&◌, ◌||◌, none, some, List, [], ◌∷◌, ◌++◌,
  filter, find, any, count, if◌then◌else◌, ltb,
}
use kerberon.Core.Time.{Time, to_unix, stored, stored_opt}
use kerberon.Core.Enums.{Severity, critical, severity_valid, healthy, missing}
use kerberon.Core.Records.{Heartbeat}
use kerberon.Store.Table.{update, next_id}
use kerberon.Store.Tx.{Db, Tx, ok, err, requires, unique_violation, unknown_heartbeat}

-- An interval column holds whole seconds. The state of a row is given by every caller, so the
-- default for an empty one is left out.
unfoldable pub insert_heartbeat : Heartbeat → Tx ℕ
insert_heartbeat h db =
    if str_eq h.name ""
    then err (requires "name")
    else if h.expected_interval == 0
    then err (requires "positive expected_interval")
    else if any (λ (r : Heartbeat). str_eq r.name h.name || str_eq r.token h.token) db.heartbeats
    then err unique_violation
    else ok (id, record db { heartbeats = db.heartbeats ++ row ∷ [] })
  where
    id : ℕ
    id = next_id (λ (r : Heartbeat). r.id) db.heartbeats

    severity : Severity
    severity = if severity_valid h.severity then h.severity else critical

    row : Heartbeat
    row = record h {
      id = id;
      expected_interval = stored h.expected_interval;
      grace_period = stored h.grace_period;
      severity = severity;
      last_ping_at = stored_opt h.last_ping_at;
      created_at = stored h.created_at;
    }

abbrev pub heartbeat_is : ℕ → Heartbeat → Bool
heartbeat_is id h = h.id == id

abbrev pub ping : Time → Heartbeat → Heartbeat
ping at h = record h { last_ping_at = some (stored at); state = healthy }

-- `RecordPing` answers with the switch as it was before.
unfoldable pub record_ping : String → Time → Tx Heartbeat
record_ping token at db = elim (find (λ (h : Heartbeat). str_eq h.token token) db.heartbeats) [
  | none ↦ err unknown_heartbeat
  | some h ↦ ok (h, record db { heartbeats = update (heartbeat_is h.id) (ping at) db.heartbeats })
]

abbrev pub is_healthy : Heartbeat → Bool
is_healthy h = elim h.state [ healthy ↦ true | _ ↦ false ]

-- last_ping_at + expected_interval + grace_period < now, in seconds.
abbrev pub overdue : Time → Heartbeat → Bool
overdue now h = is_healthy h && elim h.last_ping_at [
  | none ↦ false
  | some p ↦ ltb (to_unix p + to_unix h.expected_interval + to_unix h.grace_period) (to_unix now)
]

unfoldable pub overdue_heartbeats : Db → Time → List Heartbeat
overdue_heartbeats db now = filter (overdue now) db.heartbeats

abbrev pub flips : ℕ → Heartbeat → Bool
flips id h = heartbeat_is id h && is_healthy h

abbrev pub go_missing : Heartbeat → Heartbeat
go_missing h = record h { state = missing }

unfoldable pub mark_heartbeat_missing : ℕ → Tx Bool
mark_heartbeat_missing id db = ok (
  ltb 0 (count (flips id) db.heartbeats),
  record db { heartbeats = update (flips id) go_missing db.heartbeats },
)
