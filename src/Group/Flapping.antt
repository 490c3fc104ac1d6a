-- ===== src/Group/Flapping.antt =====
-- The flapping guard: an alert that fires again ends a resolution under way (`attachToIncident` of
-- internal/group/group.go).
use kerberon.Base.{ℕ, ◌≡◌, Bool, true, [], ◌∷◌, if◌then◌else◌, String, some}
use kerberon.Core.Time.{Time}
use kerberon.Core.Enums.{resolve_timeout}
use kerberon.Core.Records.{Alert, Incident}
use kerberon.Route.{Route}
use kerberon.Store.Tx.{Db, ok, commit}
use kerberon.Store.Keeps.{Keeps-pure, Keeps-if, Keeps-gets}
use kerberon.Store.Leads.{Leads, Leads-after, Leads-before, commit-ensures}
use kerberon.Store.Alerts.{is_firing, has_fingerprint}
use kerberon.Group.Engine.{attach_to_incident, one_if, keep_open, start_grace}
use kerberon.Escalate.Answered.{NoneRunning, cancel-Leads}
use kerberon.Invariant.Tables.{rows_keep_timers, incidents_keep_timers}

-- No resolution of the incident is under way.
abbrev pub NoGrace : ℕ → Db → Type 0
NoGrace id db = NoneRunning id (resolve_timeout ∷ []) db.timers

keep_open-Leads :
    (id : ℕ) (fingerprint : String) (now : Time)
    → Leads (λ db. Unit) (NoGrace id) (keep_open id fingerprint now)
unfolding keep_open
keep_open-Leads id fingerprint now =
    Leads-before _ _ (cancel-Leads (λ db. Unit) id now (resolve_timeout ∷ [])) λ n.
      Keeps-if _ _ _ (Keeps-pure tt)
        ((rows_keep_timers (NoneRunning id (resolve_timeout ∷ []))).insert_event_keeps _ _ _ now)

firing-Leads :
    (a : Alert) (rt : Route) (inc : Incident) (now : Time)
    → is_firing a ≡ true
    → Leads
        (λ db. Unit)
        (NoGrace inc.id)
        (if is_firing a
          then keep_open inc.id a.fingerprint now
          else start_grace inc.id rt.resolve_grace now)
firing-Leads a rt inc now fires = rw fires (keep_open-Leads inc.id a.fingerprint now)

attach-Leads :
    (a : Alert) (rt : Route) (inc : Incident) (now : Time)
    → is_firing a ≡ true
    → Leads (λ db. Unit) (NoGrace inc.id) (attach_to_incident a rt inc now)
unfolding attach_to_incident
attach-Leads a rt inc now fires =
    Leads-after _ _ (Keeps-gets (λ db. has_fingerprint db inc.id a.fingerprint)) λ deduped.
      Leads-after _ _
        ((rows_keep_timers (λ ts. Unit)).insert_alert_keeps
          (record a { incident_id = some inc.id }))
        λ _.
          Leads-after _ _
            ((incidents_keep_timers (λ ts. Unit)).touch_keeps inc.id now 1 (one_if deduped))
            λ _. Leads-before _ _ (firing-Leads a rt inc now fires) (λ _. Keeps-pure deduped)

-- Once a firing alert has joined an incident, no timer that would resolve the incident is pending.
pub attach_to_incident-NoGrace :
    (a : Alert) (rt : Route) (inc : Incident) (now : Time) (db : Db) (deduped : Bool)
    → is_firing a ≡ true
    → (commit (attach_to_incident a rt inc now) db).0 ≡ ok deduped
    → NoGrace inc.id (commit (attach_to_incident a rt inc now) db).1
attach_to_incident-NoGrace a rt inc now db deduped fires done =
    commit-ensures (NoGrace inc.id) (attach_to_incident a rt inc now) db
      ((attach-Leads a rt inc now fires).at db tt) done
