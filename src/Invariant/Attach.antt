-- ===== src/Invariant/Attach.antt =====
-- What the statements keep, the attachment of an alert to its incident keeps.
use kerberon.Base.{ℕ, String}
use kerberon.Core.Time.{Time, Duration}
use kerberon.Core.Records.{Incident, Alert}
use kerberon.Route.{Route}
use kerberon.Store.Tx.{Db}
use kerberon.Store.Incidents.{touch_incident}
use kerberon.Store.Keeps.{Keeps, keeps_rules}
use kerberon.Group.Engine.{keep_open, start_grace, attach_to_incident}
use kerberon.Invariant.Primitive.{TimerStatements, RowStatements}

module _ {P : Db → Type 0} (timers : TimerStatements P) (rows : RowStatements P)
    (touch_keeps : (id : ℕ) (at : Time) (n m : ℕ) → Keeps P (touch_incident id at n m)) where
  open timers use {insert_timer_keeps, cancel_keeps}
  open rows use {insert_event_keeps, insert_alert_keeps}

  keep_open-Keeps : (id : ℕ) (fp : String) (now : Time) → Keeps P (keep_open id fp now)
  unfolding keep_open
  keep_open-Keeps id fp now = search (keeps_rules, cancel_keeps, insert_event_keeps)

  start_grace-Keeps : (id : ℕ) (grace : Duration) (now : Time) → Keeps P (start_grace id grace now)
  unfolding start_grace
  start_grace-Keeps id grace now = search (keeps_rules, cancel_keeps, insert_timer_keeps) depth 9

  pub attach-Keeps :
      (a : Alert) (rt : Route) (inc : Incident) (now : Time)
      → Keeps P (attach_to_incident a rt inc now)
  unfolding attach_to_incident
  attach-Keeps a rt inc now =
      search (keeps_rules, insert_alert_keeps, touch_keeps, keep_open-Keeps, start_grace-Keeps)
        depth 9
