-- ===== src/Escalate/Answered.antt =====
-- What an acknowledgement and a manual resolution stop (`Acknowledge` of internal/escalate/escalate.go,
-- `Resolve` of internal/store/incidents.go).
use kerberon.Base.{
  ℕ, String, ◌≡◌, refl, Bool, false, Option, none, some, List, [], ◌∷◌, ◌++◌, arith, count,
  count-append, ◌&&◌, ◌==◌,
}
use kerberon.Core.Time.{Time}
use kerberon.Core.Enums.{TimerKind, escalate, kind_eq, AckVia, EventKind}
use kerberon.Core.Records.{Incident, Timer, is_pending, Detail}
use kerberon.Policy.{Policy, decode_policy}
use kerberon.Store.Table.{update, count-update-zero}
use kerberon.Store.Tx.{Db, ok, err, commit, not_acknowledgeable}
use kerberon.Store.Keeps.{Keeps, Ensures-if, Keeps-pure, Keeps-both, Keeps-bind, Keeps-if}
use kerberon.Store.Leads.{
  Leads, Leads-before, Leads-fail, Leads-then, Leads-if, refused-commit, commit-ensures,
}
use kerberon.Store.Timers.{
  insert_timer, cancel_incident_timers, cancel_incident_timers_except, cancels, cancelled, kind_in,
}
use kerberon.Store.Incidents.{
  incident_is, is_triggered, acknowledge_incident, acknowledge_row, insert_event,
}
use kerberon.Escalate.Engine.{acknowledge, insert_ack, schedule_ack_timeout}
use kerberon.Invariant.Primitive.{RowStatements, load_incident-Keeps}
use kerberon.Invariant.Tables.{rows_keep_incidents, rows_keep_timers, timers_keep_incidents}

-- A pending timer of the incident that a list of kinds names (the empty list names all).
abbrev pub running : ℕ → List TimerKind → Timer → Bool
running id kinds t = t.incident_id == id && is_pending t && kind_in kinds t.kind

abbrev pub NoneRunning : ℕ → List TimerKind → List Timer → Type 0
NoneRunning id kinds ts = count (running id kinds) ts ≡ 0

pub cancel-NoneRunning :
    (id : ℕ) (at : Time) (kinds : List TimerKind) (ts : List Timer)
    → NoneRunning id kinds (update (cancels id 0 kinds) (cancelled at) ts)
cancel-NoneRunning id at kinds ts =
    count-update-zero (running id kinds) (cancels id 0 kinds) (cancelled at) ts (λ t. ground arith)

pub cancel-Leads :
    (P : Db → Type 0) (id : ℕ) (at : Time) (kinds : List TimerKind)
    → Leads P (λ db. NoneRunning id kinds db.timers) (cancel_incident_timers id at kinds)
unfolding cancel_incident_timers cancel_incident_timers_except
cancel-Leads P id at kinds = record { at = λ db h. cancel-NoneRunning id at kinds db.timers }

add-NoneRunning :
    (id : ℕ) (ts : List Timer) (t : Timer)
    → kind_eq t.kind escalate ≡ false
    → NoneRunning id (escalate ∷ []) ts
    → NoneRunning id (escalate ∷ []) (ts ++ t ∷ [])
add-NoneRunning id ts t other h =
    ground (arith, count-append (running id (escalate ∷ [])) ts (t ∷ []), other)

insert-NoneRunning :
    (id : ℕ) (t : Timer)
    → kind_eq t.kind escalate ≡ false
    → Keeps (λ db. NoneRunning id (escalate ∷ []) db.timers) (insert_timer t)
unfolding insert_timer
insert-NoneRunning id t other = record {
  at = λ db h.
      let k : (row : Timer)
          → kind_eq row.kind escalate ≡ false
          → NoneRunning id (escalate ∷ []) (db.timers ++ row ∷ []) =
        λ row o. add-NoneRunning id db.timers row o h in
      search (Ensures-if, k);
}

schedule_ack_timeout-Keeps :
    (of id : ℕ) (o : Option Policy) (now : Time)
    → Keeps (λ db. NoneRunning of (escalate ∷ []) db.timers) (schedule_ack_timeout id o now)
unfolding schedule_ack_timeout
schedule_ack_timeout-Keeps of id none now = Keeps-pure tt
schedule_ack_timeout-Keeps of id (some p) now =
    Keeps-if _ _ _ (Keeps-pure tt)
      (Keeps-bind _ _ (insert-NoneRunning of _ refl) (λ n. Keeps-pure tt))

-- ─── Acknowledgement ───

-- No row with the id is triggered.
abbrev pub NotTriggered : ℕ → List Incident → Type 0
NotTriggered id rows = count (λ i. incident_is id i && is_triggered i) rows ≡ 0

acknowledge_incident-Leads :
    (id : ℕ) (at : Time) (user : String)
    → Leads (λ db. Unit) (λ db. NotTriggered id db.incidents) (acknowledge_incident id at user)
unfolding acknowledge_incident
acknowledge_incident-Leads id at user = record {
  at = λ db h.
      count-update-zero _ (λ i. incident_is id i && is_triggered i) (acknowledge_row at user)
        db.incidents (λ i. ground arith);
}

-- What holds of the timers and of the incidents once the answer is in.
abbrev pub Answered : ℕ → Db → Type 0
Answered id db = NoneRunning id (escalate ∷ []) db.timers × NotTriggered id db.incidents

module _ (id : ℕ) where
  timer_rows : RowStatements (λ db. NoneRunning id (escalate ∷ []) db.timers)
  timer_rows = rows_keep_timers (NoneRunning id (escalate ∷ []))

  incident_rows : RowStatements (λ db. NotTriggered id db.incidents)
  incident_rows = rows_keep_incidents (NotTriggered id)

  cancel-Answered :
      (now : Time)
      → Leads
          (λ db. NotTriggered id db.incidents)
          (Answered id)
          (cancel_incident_timers id now (escalate ∷ []))
  unfolding cancel_incident_timers cancel_incident_timers_except
  cancel-Answered now = record {
    at = λ db h. (cancel-NoneRunning id now (escalate ∷ []) db.timers, h);
  }

  schedule-NotTriggered :
      (of : ℕ) (o : Option Policy) (now : Time)
      → Keeps (λ db. NotTriggered id db.incidents) (schedule_ack_timeout of o now)
  unfolding schedule_ack_timeout
  schedule-NotTriggered of none now = Keeps-pure tt
  schedule-NotTriggered of (some p) now = Keeps-if _ _ _ (Keeps-pure tt) (
      Keeps-bind _ _ ((timers_keep_incidents (NotTriggered id)).insert_timer_keeps _)
        (λ n. Keeps-pure tt))

  ack-Answered :
      (of : ℕ) (user : String) (via : AckVia) (now : Time)
      → Keeps (Answered id) (insert_ack of user via now)
  ack-Answered of user via now =
      Keeps-both (insert_ack of user via now) (timer_rows.insert_ack_keeps of user via now)
        (incident_rows.insert_ack_keeps of user via now)

  event-Answered :
      (of : ℕ) (kind : EventKind) (d : Detail) (now : Time)
      → Keeps (Answered id) (insert_event of kind d now)
  event-Answered of kind d now =
      Keeps-both (insert_event of kind d now) (timer_rows.insert_event_keeps of kind d now)
        (incident_rows.insert_event_keeps of kind d now)

  schedule-Answered :
      (of : ℕ) (o : Option Policy) (now : Time)
      → Keeps (Answered id) (schedule_ack_timeout of o now)
  schedule-Answered of o now =
      Keeps-both (schedule_ack_timeout of o now) (schedule_ack_timeout-Keeps id of o now)
        (schedule-NotTriggered of o now)

  acknowledge-Leads :
      (user : String) (via : AckVia) (now : Time)
      → Leads (λ db. Unit) (Answered id) (acknowledge id user via now)
  unfolding acknowledge
  acknowledge-Leads user via now = Leads-then _ _ (acknowledge_incident-Leads id now user) λ took.
      Leads-if _ _ _ (Leads-fail not_acknowledgeable) (
        Leads-before _ _ (cancel-Answered now) λ n.
          Keeps-bind _ _ (ack-Answered id user via now) λ _.
            Keeps-bind _ _ (load_incident-Keeps (Answered id) id) λ inc.
              Keeps-bind _ _ (schedule-Answered id (decode_policy inc.policy_snapshot) now)
                λ _. event-Answered id _ _ now)

  refused-acknowledge :
      (user : String) (via : AckVia) (now : Time) (db : Db)
      → NotTriggered id db.incidents
      → acknowledge id user via now db ≡ err not_acknowledgeable
  unfolding acknowledge acknowledge_incident
  refused-acknowledge user via now db h = rw h refl

-- An acknowledgement that commits leaves no pending escalation timer of the incident, and no row with its id
-- triggered; and another acknowledgement of the database that it leaves, whoever sends it and whenever, fails
-- as not acknowledgeable and changes nothing.
pub ack_stops_escalation :
    (id : ℕ) (user : String) (via : AckVia) (now : Time) (db : Db)
    → (commit (acknowledge id user via now) db).0 ≡ ok tt
    → Answered id (commit (acknowledge id user via now) db).1
      × ((user' : String) (via' : AckVia) (now' : Time)
          → commit (acknowledge id user' via' now') (commit (acknowledge id user via now) db).1
            ≡ (err not_acknowledgeable, (commit (acknowledge id user via now) db).1))
ack_stops_escalation id user via now db done =
    let answered =
      commit-ensures (Answered id) (acknowledge id user via now) db
        ((acknowledge-Leads id user via now).at db tt) done in
    (
      answered,
      λ user' via' now'. refused-commit _ _ (refused-acknowledge id user' via' now' _ answered.1),
    )
