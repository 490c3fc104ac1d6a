-- ===== src/Escalate/Resolved.antt =====
-- What a manual resolution stops (`Resolve` of internal/store/incidents.go), and how the last
-- resolution of the alerts closes an incident (internal/group/group.go).
use kerberon.Base.{
  ℕ, String, ◌≡◌, refl, true, false, List, [], arith, count, Bool-cases, inl, inr, ◌&&◌, ltb,
}
use kerberon.Core.Time.{Time}
use kerberon.Core.Enums.{EventKind}
use kerberon.Core.Records.{Incident, Detail, closed_by}
use kerberon.Store.Table.{update, count-update-zero}
use kerberon.Store.Tx.{Db, ok, commit, pure, ◌>>◌}
use kerberon.Store.Keeps.{Keeps, Ensures, Keeps-pure, Keeps-both, Keeps-bind}
use kerberon.Store.Leads.{Leads, Leads-before, commit-ensures}
use kerberon.Store.Timers.{cancel_incident_timers, cancel_incident_timers_except}
use kerberon.Store.Incidents.{
  incident_is, is_status_open, resolve_incident, resolve_row, insert_event, resolve, affected,
}
use kerberon.Invariant.Tables.{rows_keep_incidents, rows_keep_timers}
use kerberon.Escalate.Answered.{NoneRunning, cancel-NoneRunning}

-- No row with the id is open.
abbrev pub NoneOpen : ℕ → List Incident → Type 0
NoneOpen id rows = count (λ i. incident_is id i && is_status_open i) rows ≡ 0

-- Nor does any timer of the incident wait.
abbrev pub Closed : ℕ → Db → Type 0
Closed id db = NoneRunning id [] db.timers × NoneOpen id db.incidents

pub update-NoneOpen :
    (id : ℕ) (at : Time) (by : String) (rows : List Incident)
    → NoneOpen id (update (λ i. incident_is id i && is_status_open i) (resolve_row at by) rows)
update-NoneOpen id at by rows =
    count-update-zero _ (λ i. incident_is id i && is_status_open i) (resolve_row at by) rows
      (λ i. ground arith)

module _ (id : ℕ) where
  cancel-Closed :
      (now : Time)
      → Leads (λ db. NoneOpen id db.incidents) (Closed id) (cancel_incident_timers id now [])
  unfolding cancel_incident_timers cancel_incident_timers_except
  cancel-Closed now = record { at = λ db h. (cancel-NoneRunning id now [] db.timers, h) }

  event-Closed :
      (of : ℕ) (kind : EventKind) (d : Detail) (now : Time)
      → Keeps (Closed id) (insert_event of kind d now)
  event-Closed of kind d now =
      Keeps-both (insert_event of kind d now)
        ((rows_keep_timers (NoneRunning id [])).insert_event_keeps of kind d now)
        ((rows_keep_incidents (NoneOpen id)).insert_event_keeps of kind d now)

  rest-Leads :
      (by : String) (now : Time)
      → Leads
          (λ db. NoneOpen id db.incidents)
          (Closed id)
          (do
            cancel_incident_timers id now []
            insert_event id EventKind.resolved (closed_by by) now
            pure true)
  rest-Leads by now =
      Leads-before _ _ (cancel-Closed now)
        λ n. Keeps-bind _ _ (event-Closed id _ _ now) (λ _. Keeps-pure true)

  resolve-open :
      (by : String) (now : Time) (db : Db)
      → ltb 0 (affected id is_status_open db) ≡ true
      → Ensures (Closed id) (resolve id by now db)
  unfolding resolve resolve_incident
  resolve-open by now db e =
      rw e ((rest-Leads by now).at _ (update-NoneOpen id now by db.incidents))

  resolve-closed :
      (by : String) (now : Time) (db : Db)
      → ltb 0 (affected id is_status_open db) ≡ false
      → (commit (resolve id by now) db).0 ≡ ok false
  unfolding resolve resolve_incident commit
  resolve-closed by now db e = rw e refl

-- A manual resolution answers yes only where a row with the id is open. Then it leaves no pending
-- timer of the incident, of any kind, and no open row with its id; and a second resolution, by whoever
-- and whenever, answers no.
pub resolve_closes :
    (id : ℕ) (by : String) (now : Time) (db : Db)
    → (commit (resolve id by now) db).0 ≡ ok true
    → Closed id (commit (resolve id by now) db).1
      × ((by' : String) (now' : Time)
          → (commit (resolve id by' now') (commit (resolve id by now) db).1).0 ≡ ok false)
resolve_closes id by now db done = elim (Bool-cases (ltb 0 (affected id is_status_open db))) [
  | inl e ↦
      let closed =
        commit-ensures (Closed id) (resolve id by now) db (resolve-open id by now db e) done in
      (closed, λ by' now'. resolve-closed id by' now' _ (ground (arith, closed.1)))
  | inr e ↦ absurd (cc (resolve-closed id by now db e, done))
]
