-- ===== src/Api.antt =====
-- The requests of internal/api/ack.go and internal/api/heartbeat.go that change the state: the link of a
-- page, the acknowledgement and the resolution of an incident, and the ping of a switch. A request is the
-- path or the parameters that are read of it, and a reply the status and what it says; HTML and JSON are left
-- out. Bytes become a text by the parameter `text`.
pub mod Intake
pub mod Counted
pub mod Taps
use kerberon.Base.{
  ℕ, ◌==◌, ◌≡◌, String, str_eq, Bool, true, false, not, ◌||◌, Option, none, some, List,
  if◌then◌else◌,
}
use kerberon.Base.Bytes.{Bytes}
use kerberon.Core.Time.{Time}
use kerberon.Core.Enums.{AckVia, IncidentStatus, missing}
use kerberon.Core.Records.{Incident, Heartbeat}
use kerberon.Store.Tx.{
  Db, Tx, Error, Result, ok, err, commit, not_acknowledgeable, unknown_heartbeat,
}
use kerberon.Store.Incidents.{incident, resolve}
use kerberon.Store.Heartbeats.{record_ping}
use kerberon.Escalate.Engine.{acknowledge}
use kerberon.Ack.{verify_any}
use kerberon.Ack.Link.{Parsed, parse_link_path}

-- ─── The link of a page ───

-- What a second tap is told.
pub data Standing : Type 0 where
  acknowledged_by : String → Standing
  acknowledged resolved expired not_waiting : Standing

pub data Reply : Type 0 where
  incomplete_link unavailable invalid_link failed : Reply
  taken : Reply
  already : Standing → Reply

abbrev pub status_code : Reply → ℕ
status_code incomplete_link = 400
status_code unavailable = 503
status_code invalid_link = 403
status_code failed = 500
status_code taken = 200
status_code (already _) = 200

abbrev by_user : String → Standing
by_user by = if str_eq by "" then acknowledged else acknowledged_by by

-- The row of an incident that is not found has no status.
unfoldable pub describe_incident_state : Result Incident → Standing
describe_incident_state (err e) = not_waiting
describe_incident_state (ok inc) = elim inc.status [
  | IncidentStatus.acknowledged ↦ by_user inc.acknowledged_by
  | IncidentStatus.resolved ↦ resolved
  | IncidentStatus.expired ↦ expired
  | IncidentStatus.triggered ↦ not_waiting
  | IncidentStatus.suppressed ↦ not_waiting
  | IncidentStatus.other _ ↦ not_waiting
]

abbrev pub is_not_acknowledgeable : Error → Bool
is_not_acknowledgeable not_acknowledgeable = true
is_not_acknowledgeable _ = false

-- The parts of the server that may be missing.
pub record Server : Type 0 where
  pub signer : Option (Bytes → Bytes)
  pub acker : Bool

unfoldable pub answer_tap : ℕ → Result Unit × Db → Reply × Db
unfolding describe_incident_state incident
answer_tap id (ok _, db) = (taken, db)
answer_tap id (err e, db) =
    if is_not_acknowledgeable e
    then (already (describe_incident_state (incident db id)), db)
    else (failed, db)

module _ (text : Bytes → String) (srv : Server) where
  -- The checks of a link that is complete, in their order.
  unfoldable pub handle_parsed : Parsed → Time → Db → Reply × Db
  unfolding incident verify_any answer_tap
  handle_parsed p now db = elim srv.signer [
    | none ↦ (unavailable, db)
    | some sign ↦ if not srv.acker then (unavailable, db) else elim (incident db p.incident_id) [
      | err e ↦ (invalid_link, db)
      | ok inc ↦ elim (verify_any sign p.incident_id p.user_id inc.current_step p.token) [
        | none ↦ (invalid_link, db)
        | some step ↦
            answer_tap p.incident_id
              (commit (acknowledge p.incident_id (text p.user_id) AckVia.link now) db)
      ]
    ]
  ]

  unfoldable pub handle_ack_link : Bytes → Time → Db → Reply × Db
  unfolding parse_link_path handle_parsed
  handle_ack_link path now db = elim (parse_link_path path) [
    | none ↦ (incomplete_link, db)
    | some p ↦ handle_parsed p now db
  ]

-- ─── The interface for programs ───

abbrev user_or_api : String → String
user_or_api user = if str_eq user "" then "api" else user

-- Where another has been faster, the reply is a conflict and not a page.
unfoldable pub answer_ack : Result Unit × Db → ℕ × Db
answer_ack (ok _, db) = (200, db)
answer_ack (err e, db) = (if is_not_acknowledgeable e then 409 else 500, db)

-- The id is `none` where it is not the text of a positive number.
unfoldable pub handle_incident_ack : Server → Option ℕ → String → Time → Db → ℕ × Db
unfolding answer_ack
handle_incident_ack srv none user now db = (400, db)
handle_incident_ack srv (some id) user now db =
    let answered = answer_ack (commit (acknowledge id (user_or_api user) AckVia.api now) db) in
    if not srv.acker then (503, db) else answered

unfoldable pub answer_resolve : Result Bool × Db → ℕ × Db
answer_resolve (err e, db) = (500, db)
answer_resolve (ok done, db) = (if done then 200 else 409, db)

-- `configured` is whether there is a store of incidents.
unfoldable pub handle_incident_resolve : Bool → Option ℕ → String → Time → Db → ℕ × Db
unfolding answer_resolve
handle_incident_resolve configured none user now db = (400, db)
handle_incident_resolve configured (some id) user now db =
    let answered = answer_resolve (commit (resolve id (user_or_api user) now) db) in
    if not configured then (503, db) else answered

-- ─── The ping of a switch ───

abbrev is_missing : Heartbeat → Bool
is_missing h = elim h.state [ missing ↦ true | _ ↦ false ]

-- The name of the switch, and whether it has recovered.
unfoldable pub answer_ping : Result Heartbeat × Db → ℕ × Option (String × Bool) × Db
answer_ping (ok before, db) = (200, some (before.name, is_missing before), db)
answer_ping (err unknown_heartbeat, db) = (404, none, db)
answer_ping (err _, db) = (500, none, db)

unfoldable pub handle_heartbeat_ping : Bool → String → Time → Db → ℕ × Option (String × Bool) × Db
unfolding answer_ping
handle_heartbeat_ping configured token now db =
    let answered = answer_ping (commit (record_ping token now) db) in
    if not configured
    then (503, none, db)
    else if str_eq token ""
    then (400, none, db)
    else answered
