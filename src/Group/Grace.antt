-- ===== src/Group/Grace.antt =====
-- The end of the grace after the last resolution (`handleResolveTimeout` of internal/group/group.go).
use kerberon.Base.{
  ℕ, ◌<◌, ◌≡◌, refl, ◌∙◌, ◌⊎◌, inl, inr, true, false, Option, [], arith, find, Bool-cases,
}
use kerberon.Core.Time.{Time}
use kerberon.Core.Enums.{EventKind}
use kerberon.Core.Records.{Timer, Detail}
use kerberon.Store.Table.{find-update_spared}
use kerberon.Store.Tx.{Db, ok, commit}
use kerberon.Store.Keeps.{Keeps, Ensures, Keeps-pure, Keeps-both, Keeps-bind, Keeps-if}
use kerberon.Store.Leads.{Leads, Leads-before, commit-ensures}
use kerberon.Store.Alerts.{all_alerts_resolved}
use kerberon.Store.Timers.{timer_is, cancel_incident_timers_except, cancels, cancelled}
use kerberon.Store.Incidents.{resolve_incident, insert_event}
use kerberon.Group.Engine.{close_incident, handle_resolve_timeout}
use kerberon.Escalate.Resolved.{NoneOpen, update-NoneOpen}
use kerberon.Invariant.Tables.{rows_keep_incidents, rows_keep_timers}

module _ (t : Timer) (own : Option Timer) where
  -- The incident is not open, and the timer's own row is as it was.
  abbrev pub Shut : Db → Type 0
  Shut db = NoneOpen t.incident_id db.incidents × (find (timer_is t.id) db.timers ≡ own)

  resolve-Shut :
      (now : Time)
      → Leads
          (λ db. find (timer_is t.id) db.timers ≡ own)
          Shut
          (resolve_incident t.incident_id now "auto")
  unfolding resolve_incident
  resolve-Shut now = record {
    at = λ db h. (update-NoneOpen t.incident_id now "auto" db.incidents, h);
  }

  spared : 0 < t.id → (u : Timer) → timer_is t.id u ≡ true → cancels t.incident_id t.id [] u ≡ false
  spared pos u h = ground (arith, pos, h)

  cancel-Shut :
      (now : Time) → 0 < t.id → Keeps Shut (cancel_incident_timers_except t.incident_id t.id now [])
  unfolding cancel_incident_timers_except
  cancel-Shut now pos = record {
    at = λ db h. (
      h.0,
      find-update_spared (timer_is t.id) (cancels t.incident_id t.id []) (cancelled now) db.timers
            (λ u. refl) (spared pos)
          ∙ h.1,
    );
  }

  event-Shut :
      (of : ℕ) (kind : EventKind) (d : Detail) (now : Time)
      → Keeps Shut (insert_event of kind d now)
  event-Shut of kind d now =
      Keeps-both (insert_event of kind d now)
        ((rows_keep_incidents (NoneOpen t.incident_id)).insert_event_keeps of kind d now)
        ((rows_keep_timers (λ ts. find (timer_is t.id) ts ≡ own)).insert_event_keeps of kind d now)

  close-Shut :
      (now : Time)
      → 0 < t.id
      → Leads (λ db. find (timer_is t.id) db.timers ≡ own) Shut (close_incident now t)
  unfolding close_incident
  close-Shut now pos = Leads-before _ _ (resolve-Shut now) λ closed.
      Keeps-if _ _ _ (Keeps-pure tt)
        (Keeps-bind _ _ (cancel-Shut now pos) λ n. event-Shut _ _ _ now)

-- The timer that ends the grace, where it commits: if an alert of the incident fires again, nothing
-- changes; otherwise the incident is not open afterwards, and the timer's own row is as it was, so that
-- the scheduler can still mark it.
pub handle_resolve_timeout-Shut :
    (now : Time) (t : Timer) (db : Db)
    → 0 < t.id
    → (commit (handle_resolve_timeout now t) db).0 ≡ ok tt
    → ((all_alerts_resolved db t.incident_id ≡ false)
        × ((commit (handle_resolve_timeout now t) db).1 ≡ db))
      ⊎ ((all_alerts_resolved db t.incident_id ≡ true)
          × Shut t (find (timer_is t.id) db.timers) (commit (handle_resolve_timeout now t) db).1)
unfolding handle_resolve_timeout commit
handle_resolve_timeout-Shut now t db pos done =
    elim (Bool-cases (all_alerts_resolved db t.incident_id)) [
      | inl e ↦
          let shut : Ensures (Shut t (find (timer_is t.id) db.timers))
              (handle_resolve_timeout now t db) =
            rw (e, handle_resolve_timeout)
              ((close-Shut t (find (timer_is t.id) db.timers) now pos).at db refl) in
          inr (
            e,
            commit-ensures (Shut t (find (timer_is t.id) db.timers)) (handle_resolve_timeout now t)
                db shut done,
          )
      | inr e ↦ inl (e, unchanged e)
    ]
  where
    unchanged :
        all_alerts_resolved db t.incident_id ≡ false
        → (commit (handle_resolve_timeout now t) db).1 ≡ db
    unchanged e = rw (e, commit, handle_resolve_timeout) refl
