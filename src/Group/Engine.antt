-- ===== src/Group/Engine.antt =====
-- internal/group/group.go: alerts into incidents. The engine's partners are a record: the hash behind
-- the keys, and what is called when it is time to page.
use kerberon.Base.{ℕ, ◌+◌, ◌==◌, String, Bool, true, false, not, none, some, [], ◌∷◌, if◌then◌else◌}
use kerberon.Core.Time.{Time, Duration}
use kerberon.Core.Enums.{resolved, triggered, TimerKind, group_wait, resolve_timeout, EventKind}
use kerberon.Core.Records.{
  Alert, Incident, Timer, Payload, opened, window_closed, refired, all_resolved,
}
use kerberon.Policy.{Snapshot}
use kerberon.Alert.{severity as alert_severity, title as alert_title}
use kerberon.Route
use kerberon.Route.{Route, match_route}
use kerberon.Store.Tx.{Db, Tx, Result, ok, err, pure, fail, gets, ◌>>=◌, ◌>>◌, no_open_incident}
use kerberon.Store.Timers.{insert_timer, cancel_incident_timers, cancel_incident_timers_except}
use kerberon.Store.Incidents.{
  insert_incident, open_incident_by_group_key, load_incident, touch_incident, resolve_incident,
  insert_event, is_triggered,
}
use kerberon.Store.Alerts.{insert_alert, has_fingerprint, all_alerts_resolved, is_firing}

pub record Env : Type 0 where
  pub hash : String → String
  -- `PageDue`
  pub on_page : Time → Incident → Tx Unit

abbrev pub new_timer : ℕ → TimerKind → Time → Time → Timer
new_timer incident_id kind fire_at now = record {
  id = 0;
  incident_id = incident_id;
  kind = kind;
  fire_at = fire_at;
  payload = Payload.empty;
  created_at = now;
  claimed_at = none;
  completed_at = none;
  cancelled_at = none;
}

unfoldable pub new_incident : Alert → Route → String → Time → Incident
new_incident a rt key now = record {
  id = 0;
  group_key = key;
  team = rt.team;
  policy = rt.policy;
  severity = alert_severity a.labels;
  title = alert_title a;
  status = triggered;
  policy_snapshot = Snapshot.empty;
  current_step = 0;
  alert_count = 1;
  created_at = now;
  acknowledged_at = none;
  acknowledged_by = "";
  resolved_at = none;
  resolved_by = "";
  last_alert_at = now;
  dedup_count = 0;
}

-- A new incident, its first alert, and the window before the first page.
unfoldable pub open_incident : Alert → Route → String → Time → Tx Unit
unfolding new_incident
open_incident a rt key now = do
  id ← insert_incident (new_incident a rt key now)
  insert_alert (record a { incident_id = some id })
  insert_event id EventKind.created (opened rt.name key a.fingerprint rt.group_wait) now
  insert_timer (new_timer id group_wait (now + rt.group_wait) now)
  pure tt

-- A firing alert ends a resolution under way.
unfoldable pub keep_open : ℕ → String → Time → Tx Unit
keep_open id fingerprint now = do
  n ← cancel_incident_timers id now (resolve_timeout ∷ [])
  if n == 0 then pure tt else insert_event id EventKind.grouped (refired fingerprint) now

-- When the last alert has resolved, the grace window starts anew.
unfoldable pub start_grace : ℕ → Duration → Time → Tx Unit
start_grace id grace now = do
  done ← gets (λ db. all_alerts_resolved db id)
  if not done then pure tt else do
    cancel_incident_timers id now (resolve_timeout ∷ [])
    insert_timer (new_timer id resolve_timeout (now + grace) now)
    pure tt

abbrev pub one_if : Bool → ℕ
one_if b = if b then 1 else 0

-- Answers whether the alert repeats one that the incident has.
unfoldable pub attach_to_incident : Alert → Route → Incident → Time → Tx Bool
unfolding keep_open start_grace
attach_to_incident a rt inc now = do
  deduped ← gets (λ db. has_fingerprint db inc.id a.fingerprint)
  insert_alert (record a { incident_id = some inc.id })
  touch_incident inc.id now 1 (one_if deduped)
  if is_firing a
      then keep_open inc.id a.fingerprint now
      else start_grace inc.id rt.resolve_grace now
  pure deduped

abbrev pub is_resolved : Alert → Bool
is_resolved a = elim a.status [ resolved ↦ true | _ ↦ false ]

-- What one alert did: whether it opened an incident, and whether it was a repeat.
pub record Applied : Type 0 where
  pub created : Bool
  pub deduped : Bool

abbrev pub no_group : Alert → Route → String → Time → Tx Applied
no_group a rt key now =
    if is_resolved a
    then (do insert_alert a; pure (record { created = false; deduped = false }))
    else (do open_incident a rt key now; pure (record { created = true; deduped = false }))

abbrev pub by_group : Result (Incident × Db) → Alert → Route → String → Time → Tx Applied
by_group (ok (inc, _)) a rt key now = do
  deduped ← attach_to_incident a rt inc now
  pure (record { created = false; deduped = deduped })
by_group (err no_open_incident) a rt key now = no_group a rt key now
by_group (err e) a rt key now = fail e

module _ (env : Env) where
  unfoldable pub apply_alert : Time → Alert × Route → Tx Applied
  apply_alert now (a, rt) db =
      let key = Route.group_key env.hash rt a.labels in
      by_group (open_incident_by_group_key key db) a rt key now db

  -- ─── Timer handlers ───

  unfoldable pub handle_group_wait : Time → Timer → Tx Unit
  handle_group_wait now t = do
    inc ← load_incident t.incident_id
    if not (is_triggered inc) then pure tt else do
      insert_event inc.id EventKind.grouped (window_closed inc.alert_count inc.dedup_count) now
      env.on_page now inc

unfoldable pub close_incident : Time → Timer → Tx Unit
close_incident now t = do
  closed ← resolve_incident t.incident_id now "auto"
  if not closed then pure tt else do
    cancel_incident_timers_except t.incident_id t.id now []
    insert_event t.incident_id EventKind.resolved all_resolved now

unfoldable pub handle_resolve_timeout : Time → Timer → Tx Unit
unfolding close_incident
handle_resolve_timeout now t = do
  done ← gets (λ db. all_alerts_resolved db t.incident_id)
  if not done then pure tt else close_incident now t
