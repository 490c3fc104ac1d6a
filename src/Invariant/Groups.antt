-- ===== src/Invariant/Groups.antt =====
-- What the statements keep, the grouping engine keeps.
use kerberon.Base.{ℕ, zero, suc, String, List, [], ◌∷◌, take, drop}
use kerberon.Core.Time.{Time}
use kerberon.Core.Records.{Incident, Timer, Alert}
use kerberon.Route.{Route}
use kerberon.Store.Tx.{Db, Error, Result, ok, err, commit}
use kerberon.Store.Keeps.{Keeps, keeps_rules, Keeps-read, Keeps-pure, Keeps-bind, commit-Keeps}
use kerberon.Group.Engine.{
  Env, open_incident, no_group, by_group, apply_alert, handle_group_wait, close_incident,
  handle_resolve_timeout,
}
use kerberon.Group.Ingest.{
  Summary, apply_chunk, ingest_chunks, ingest, nothing, add_summary, add_applied, tx_chunk, Outcome,
  after_chunk,
}
use kerberon.Invariant.Attach.{attach-Keeps}
use kerberon.Escalate.Engine as Escalate
use kerberon.Invariant.Primitive.{Primitive, load_incident-Keeps}

module _ {engine : Escalate.Env} {P : Db → Type 0} (keep : Primitive engine P) where
  open keep use {
    timers,
    rows,
    timers.{insert_timer_keeps, cancel_keeps, cancel_except_keeps},
    incidents.{insert_incident_keeps, touch_keeps, resolve_keeps},
    rows.{insert_event_keeps, insert_alert_keeps},
  }

  open_incident-Keeps :
      (a : Alert) (rt : Route) (key : String) (now : Time) → Keeps P (open_incident a rt key now)
  unfolding open_incident
  open_incident-Keeps a rt key now =
      search
        (
          keeps_rules, insert_incident_keeps, insert_alert_keeps, insert_event_keeps,
          insert_timer_keeps,
        )
        depth 9

  no_group-Keeps :
      (a : Alert) (rt : Route) (key : String) (now : Time) → Keeps P (no_group a rt key now)
  no_group-Keeps a rt key now = search (keeps_rules, insert_alert_keeps, open_incident-Keeps)

  by_group-Keeps :
      (r : Result (Incident × Db)) (a : Alert) (rt : Route) (key : String) (now : Time)
      → Keeps P (by_group r a rt key now)
  by_group-Keeps (ok (inc, _)) a rt key now =
      search (keeps_rules, attach-Keeps timers rows touch_keeps)
  by_group-Keeps (err Error.no_open_incident) a rt key now = no_group-Keeps a rt key now
  by_group-Keeps (err e) a rt key now = search keeps_rules

  close_incident-Keeps : (now : Time) (t : Timer) → Keeps P (close_incident now t)
  unfolding close_incident
  close_incident-Keeps now t =
      search (keeps_rules, resolve_keeps, cancel_except_keeps, insert_event_keeps)

  pub handle_resolve_timeout-Keeps :
      (now : Time) (t : Timer) → Keeps P (handle_resolve_timeout now t)
  unfolding handle_resolve_timeout
  handle_resolve_timeout-Keeps now t = search (keeps_rules, close_incident-Keeps)

  module _ (env : Env) where
    apply_alert-Keeps : (now : Time) (p : Alert × Route) → Keeps P (apply_alert env now p)
    unfolding apply_alert
    apply_alert-Keeps now (a, rt) = Keeps-read _ λ db. by_group-Keeps _ a rt _ now

    pub handle_group_wait-Keeps :
        ((now : Time) (inc : Incident) → Keeps P (env.on_page now inc))
        → (now : Time) (t : Timer) → Keeps P (handle_group_wait env now t)
    unfolding handle_group_wait
    handle_group_wait-Keeps page now t =
        search (keeps_rules, load_incident-Keeps P, insert_event_keeps, page)

    apply_chunk-Keeps :
        (now : Time) (s : Summary) (chunk : List (Alert × Route))
        → Keeps P (apply_chunk env now s chunk)
    unfolding apply_chunk
    apply_chunk-Keeps now s [] = Keeps-pure s
    apply_chunk-Keeps now s (p ∷ chunk) =
        Keeps-bind _ _ (apply_alert-Keeps now p) λ r. apply_chunk-Keeps now (add_applied r s) chunk

    after_chunk-Keeps :
        (rest : Summary → Db → Outcome) (s : Summary) (r : Result Summary) (db : Db)
        → ((s' : Summary) (db' : Db) → P db' → P (rest s' db').1)
        → P db
        → P (after_chunk rest s (r, db)).1
    after_chunk-Keeps rest s (ok c) db k h = k (add_summary s c) db h
    after_chunk-Keeps rest s (err e) db k h = h

    chunks-Keeps :
        (now : Time) (fuel : ℕ) (s : Summary) (pending : List (Alert × Route)) (db : Db)
        → P db
        → P (ingest_chunks env now fuel s pending db).1
    unfolding ingest_chunks
    chunks-Keeps now fuel s [] db h = h
    chunks-Keeps now zero s (p ∷ pending) db h = h
    chunks-Keeps now (suc fuel) s (p ∷ pending) db h =
        after_chunk-Keeps
          (λ s' db'. ingest_chunks env now fuel s' (drop tx_chunk (p ∷ pending)) db') s
          (commit (apply_chunk env now nothing chunk) db).0
          (commit (apply_chunk env now nothing chunk) db).1
          (λ s' db' h'. chunks-Keeps now fuel s' (drop tx_chunk (p ∷ pending)) db' h')
          (commit-Keeps (apply_chunk env now nothing chunk) (apply_chunk-Keeps now nothing chunk) db
            h)
      where
        chunk : List (Alert × Route)
        chunk = take tx_chunk (p ∷ pending)

    pub ingest-Keeps :
        (now : Time) (routes : List Route) (alerts : List Alert) (db : Db)
        → P db
        → P (ingest env now routes alerts db).1
    unfolding ingest
    ingest-Keeps now routes alerts db h = chunks-Keeps now _ _ _ db h
