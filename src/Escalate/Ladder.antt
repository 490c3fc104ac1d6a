-- ===== src/Escalate/Ladder.antt =====
-- An escalation timer that fires climbs one rung, or ends the escalation.
use kerberon.Base.{
  ℕ, suc, ◌*◌, ltb, ◌≤◌, ◌<◌, ◌≡◌, refl, ap, sym, ◌∙◌, ◌⊎◌, inl, inr, true, false, some, List,
  arith, length, find, Bool-cases, ltb→lt, ==_iff, subst, ◌&&◌,
}
use kerberon.Core.Time.{Time}
use kerberon.Core.Enums.{EventKind, expired}
use kerberon.Core.Records.{Incident, Timer, step_payload, Detail}
use kerberon.Policy.{Policy, encoded, total_passes, decode_policy}
use kerberon.Store.Table.{find-true, find-update, map_opt, update}
use kerberon.Store.Tx.{Db, ok, commit}
use kerberon.Store.Keeps.{Keeps, Ensures, Keeps-pure, Keeps-if, Keeps-both, Ensures-map}
use kerberon.Store.Leads.{Leads, Leads-before, commit-ensures}
use kerberon.Store.Incidents.{
  incident_is, load_incident, is_triggered, expire_incident, insert_event,
}
use kerberon.Escalate.Engine.{Env, fire_step, expire, handle_escalate}
use kerberon.Escalate.Chain.{AddsRung, next_at, run_step-Leads}
use kerberon.Escalate.Rungs.{past-step_at, in_range-step_at}
use kerberon.Invariant.Closed.{IsClosed}
use kerberon.Invariant.Tables.{rows_keep_incidents, rows_keep_timers}

found-id :
    (id : ℕ) (rows : List Incident) {inc : Incident}
    → find (incident_is id) rows ≡ some inc
    → inc.id ≡ id
found-id id rows found = (==_iff _ id).0 (find-true (incident_is id) rows found)

-- The incident, as it stands, waits for an answer.
abbrev pub Waits : ℕ → Incident → Db → Type 0
Waits id inc db = (find (incident_is id) db.incidents ≡ some inc) × (is_triggered inc ≡ true)

expired-row :
    (id : ℕ) (inc : Incident) (rows : List Incident)
    → find (incident_is id) rows ≡ some inc
    → is_triggered inc ≡ true
    → IsClosed id
        (update (λ i. incident_is id i && is_triggered i) (λ i. record i { status = expired }) rows)
expired-row id inc rows found waits = (
  record inc { status = expired },
  find-update (incident_is id) _ _ rows (λ i. refl)
      ∙ ap (map_opt _) found
      ∙ ap some (ground (arith, waits, find-true (incident_is id) rows found)),
  refl,
)

-- What the end of an escalation leaves: no new timer, and a closed incident.
abbrev pub Ended : List Timer → ℕ → Db → Type 0
Ended before id db = (db.timers ≡ before) × IsClosed id db.incidents

expire_incident-Leads :
    (before : List Timer) (id : ℕ) (inc : Incident)
    → Leads (λ db. (db.timers ≡ before) × Waits id inc db) (Ended before id) (expire_incident id)
unfolding expire_incident
expire_incident-Leads before id inc = record {
  at = λ db h. (h.0, expired-row id inc db.incidents h.1.0 h.1.1);
}

event-Ended :
    (before : List Timer) (id : ℕ) (of : ℕ) (kind : EventKind) (d : Detail) (now : Time)
    → Keeps (Ended before id) (insert_event of kind d now)
event-Ended before id of kind d now =
    Keeps-both (insert_event of kind d now)
      ((rows_keep_timers (λ ts. ts ≡ before)).insert_event_keeps of kind d now)
      ((rows_keep_incidents (IsClosed id)).insert_event_keeps of kind d now)

expire-Leads :
    (before : List Timer) (id : ℕ) (inc : Incident) (policy : Policy) (now : Time)
    → Leads (λ db. (db.timers ≡ before) × Waits id inc db) (Ended before id) (expire id policy now)
unfolding expire
expire-Leads before id inc policy now =
    Leads-before _ _ (expire_incident-Leads before id inc)
      λ took. Keeps-if _ _ _ (Keeps-pure tt) (event-Ended before id id _ _ now)

-- What a rung at an index does to the incident: the next rung is set, or the escalation has ended.
abbrev pub Climbs : Policy → ℕ → Time → List Timer → ℕ → Db → Type 0
Climbs policy index now before id db =
    (index < length policy.steps * total_passes policy)
    × AddsRung before id (suc index) (next_at policy (suc index) now) now db

abbrev pub Ends : Policy → ℕ → List Timer → ℕ → Db → Type 0
Ends policy index before id db =
    (length policy.steps * total_passes policy ≤ index) × Ended before id db

-- The two outcomes of a rung.
abbrev pub Rung : Policy → ℕ → Time → List Timer → ℕ → Db → Type 0
Rung policy index now before id db =
    Climbs policy index now before id db ⊎ Ends policy index before id db

fire_step-Leads :
    (env : Env) (now : Time) (inc of : Incident) (policy : Policy) (index : ℕ) (db : Db)
    → Waits of.id inc db
    → Ensures (Rung policy index now db.timers of.id) (fire_step env now of policy index db)
unfolding fire_step
fire_step-Leads env now inc of policy index db w =
    by_range (Bool-cases (ltb index (length policy.steps * total_passes policy)))
  where
    by_range :
        (ltb index (length policy.steps * total_passes policy) ≡ true)
          ⊎ (ltb index (length policy.steps * total_passes policy) ≡ false)
        → Ensures (Rung policy index now db.timers of.id) (fire_step env now of policy index db)
    by_range (inl e) =
        let few : index < length policy.steps * total_passes policy = ltb→lt _ _ e in
        let (r, found) = in_range-step_at policy index few in
        rw (found, fire_step)
          (Ensures-map (AddsRung db.timers of.id (suc index) (next_at policy (suc index) now) now)
            (Rung policy index now db.timers of.id) (λ db' h. inl (few, h)) _
            ((run_step-Leads env db.timers now of policy index r.0 r.1).at db refl))
    by_range (inr e) =
        let many : length policy.steps * total_passes policy ≤ index = ground arith in
        rw (past-step_at policy index many, fire_step)
          (Ensures-map (Ended db.timers of.id) (Rung policy index now db.timers of.id)
            (λ db' h. inr (many, h)) _
            ((expire-Leads db.timers of.id inc policy now).at db (refl, w)))

handle-fire :
    (env : Env) (now : Time) (t : Timer) (db : Db) (inc : Incident) (policy : Policy) (index : ℕ)
    → Waits t.incident_id inc db
    → inc.policy_snapshot ≡ encoded policy
    → 0 < length policy.steps
    → t.payload ≡ step_payload index
    → handle_escalate env now t db ≡ fire_step env now inc policy index db
unfolding handle_escalate load_incident decode_policy
handle-fire env now t db inc policy index w snap pos pay = ground (arith, w.0, w.1, snap, pos, pay)

-- An escalation timer that fires for a triggered incident, whose snapshot holds a policy with at least
-- one step, and that commits, does one of two things. Within the rungs of the policy's passes it adds
-- exactly one timer: for the next rung after that rung's delay, or past the last rung for the expiry,
-- after the delay of the last step. At the end of the rungs it adds none, and the incident is closed.
-- So nobody's silence keeps an incident escalating for more than one timer beyond its rungs.
pub handle_escalate-Rung :
    (env : Env) (now : Time) (t : Timer) (db : Db) (inc : Incident) (policy : Policy) (index : ℕ)
    → Waits t.incident_id inc db
    → inc.policy_snapshot ≡ encoded policy
    → 0 < length policy.steps
    → t.payload ≡ step_payload index
    → (commit (handle_escalate env now t) db).0 ≡ ok tt
    → Rung policy index now db.timers t.incident_id (commit (handle_escalate env now t) db).1
handle_escalate-Rung env now t db inc policy index w snap pos pay done =
    let same : inc.id ≡ t.incident_id = found-id t.incident_id db.incidents w.0 in
    let fired : Ensures (Rung policy index now db.timers inc.id)
        (fire_step env now inc policy index db) =
      fire_step-Leads env now inc inc policy index db
        (subst (λ id. Waits id inc db) (sym same) w) in
    commit-ensures (Rung policy index now db.timers t.incident_id) (handle_escalate env now t) db
      (rw (handle-fire env now t db inc policy index w snap pos pay) (
        subst
          (λ id.
            Ensures (Rung policy index now db.timers id) (fire_step env now inc policy index db))
          same fired))
      done
