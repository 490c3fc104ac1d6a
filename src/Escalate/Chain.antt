-- ===== src/Escalate/Chain.antt =====
-- How escalation goes on by itself: a rung that fires leaves exactly one timer, for the next rung, or
-- for the wait before the incident expires.
use kerberon.Base.{
  ℕ, suc, ◌+◌, ◌≡◌, ap, none, List, [], ◌∷◌, ◌++◌, if◌then◌else◌, Bool-cases, inl, inr,
}
use kerberon.Core.Time.{Time, stored}
use kerberon.Core.Enums.{escalate}
use kerberon.Core.Records.{Incident, Timer, step_payload}
use kerberon.Policy.{Policy, Step, step_at, exhausted}
use kerberon.Store.Tx.{Db}
use kerberon.Store.Table.{next_id}
use kerberon.Store.Keeps.{Ensures-if, Keeps-pure}
use kerberon.Store.Leads.{Leads, Leads-after, Leads-before}
use kerberon.Store.Timers.{insert_timer}
use kerberon.Escalate.Engine.{
  Env, schedule_step, schedule_expiry, last_delay, schedule_next, step_delay, run_step,
}
use kerberon.Invariant.Primitive.{RowStatements, OutboxStatements, IncidentStatements}
use kerberon.Invariant.Tables.{rows_keep_timers, outbox_keeps_timers, incidents_keep_timers}
use kerberon.Invariant.Pages.{resolved_users-Keeps, note_gap-Keeps, enqueue_users-Keeps}

-- The row that stands for a rung.
abbrev pub rung_timer : ℕ → ℕ → Time → Time → ℕ → Timer
rung_timer incident_id step fire_at now id = record {
  id = id;
  incident_id = incident_id;
  kind = escalate;
  fire_at = stored fire_at;
  payload = step_payload step;
  created_at = stored now;
  claimed_at = none;
  completed_at = none;
  cancelled_at = none;
}

-- The timers are those before, and one for a rung.
abbrev pub AddsRung : List Timer → ℕ → ℕ → Time → Time → Db → Type 0
AddsRung before incident_id step fire_at now db =
    (id : ℕ) × (db.timers ≡ before ++ rung_timer incident_id step fire_at now id ∷ [])

abbrev pub Same : List Timer → Db → Type 0
Same before db = db.timers ≡ before

append-rung :
    (before : List Timer) (incident_id step : ℕ) (fire_at now : Time) (db : Db) (id : ℕ)
    → Same before db
    → AddsRung before incident_id step fire_at now
        (record db { timers = db.timers ++ rung_timer incident_id step fire_at now id ∷ [] })
append-rung before incident_id step fire_at now db id h =
    (id, ap (λ ts. ts ++ rung_timer incident_id step fire_at now id ∷ []) h)

schedule_step-Leads :
    (before : List Timer) (incident_id step : ℕ) (fire_at now : Time)
    → Leads
        (Same before)
        (AddsRung before incident_id step fire_at now)
        (schedule_step incident_id step fire_at now)
unfolding schedule_step insert_timer
schedule_step-Leads before incident_id step fire_at now =
    Leads-before _ _
      (record {
        at = λ db h.
            let added =
              append-rung before incident_id step fire_at now db
                (next_id (λ (r : Timer). r.id) db.timers) h in
            search (Ensures-if, added);
      })
      (λ id. Keeps-pure tt)

-- When the rung after the one that fires is to fire: after its own delay, or for the expiry after the
-- delay of the last step.
abbrev pub next_at : Policy → ℕ → Time → Time
next_at p next now =
    if exhausted p next then now + last_delay p.steps else now + step_delay (step_at p next)

schedule_next-Leads :
    (env : Env) (before : List Timer) (now : Time) (inc : Incident) (policy : Policy) (next : ℕ)
    → Leads
        (Same before)
        (AddsRung before inc.id next (next_at policy next now) now)
        (schedule_next env now inc policy next)
unfolding schedule_next schedule_expiry
schedule_next-Leads env before now inc policy next = elim (Bool-cases (exhausted policy next)) [
  | inl e ↦ rw e (schedule_step-Leads before inc.id next (now + last_delay policy.steps) now)
  | inr e ↦
      rw e (schedule_step-Leads before inc.id next (now + step_delay (step_at policy next)) now)
]

module _ (env : Env) (before : List Timer) (now : Time) (inc : Incident) (policy : Policy)
    (index : ℕ) where
  rows : RowStatements (Same before)
  rows = rows_keep_timers (λ ts. ts ≡ before)

  outbox : OutboxStatements env (Same before)
  outbox = outbox_keeps_timers (λ ts. ts ≡ before)

  incidents : IncidentStatements (Same before)
  incidents = incidents_keep_timers (λ ts. ts ≡ before)

  pub run_step-Leads :
      (step : Step) (pass : ℕ)
      → Leads
          (Same before)
          (AddsRung before inc.id (suc index) (next_at policy (suc index) now) now)
          (run_step env now inc policy index step pass)
  unfolding run_step
  run_step-Leads step pass = Leads-after _ _ (resolved_users-Keeps _) λ users.
      Leads-after _ _ (note_gap-Keeps rows outbox _ _ _ _ _) λ _.
        Leads-after _ _ (enqueue_users-Keeps rows outbox _ _ _ _ _ _) λ n.
          Leads-after _ _ (incidents.set_step_keeps _ _) λ _.
            Leads-after _ _ (rows.insert_event_keeps _ _ _ _)
              λ _. schedule_next-Leads env before now inc policy (suc index)
