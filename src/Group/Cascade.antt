-- ===== src/Group/Cascade.antt =====
-- A cascade: however many alerts share a group key, they open one incident.
use kerberon.Base.{
  ℕ, suc, ◌≡◌, refl, ◌∙◌, ◌⊎◌, inl, inr, String, eq_iff, Bool, true, false, List, [], ◌∷◌, ◌++◌,
  arith, find, any, ◌&&◌, Bool-cases, Option-cases, length, length-append,
}
use kerberon.Core.Time.{Time}
use kerberon.Core.Records.{Alert, Incident}
use kerberon.Route
use kerberon.Route.{Route}
use kerberon.Store.Table.{any-update, find-any, find-none, length-update, any-last}
use kerberon.Store.Tx.{Db, ok, err, no_open_incident}
use kerberon.Store.Keeps.{Keeps, Ensures, Ensures-if, Keeps-pure, Keeps-bind, Ensures-map}
use kerberon.Store.Leads.{Leads, Leads-before}
use kerberon.Store.Incidents.{
  occupies, insert_incident, touch_incident, touch_row, open_incident_by_group_key, incident_is,
}
use kerberon.Group.Engine.{
  Env, apply_alert, no_group, is_resolved, attach_to_incident, open_incident, new_incident,
}
use kerberon.Invariant.Tables.{rows_keep_incidents, timers_keep_incidents}
use kerberon.Invariant.Attach.{attach-Keeps}

-- So many incidents, and one of them is open for the key, or none.
abbrev pub Has : Bool → String → ℕ → List Incident → Type 0
Has b key n rows = (any (occupies key) rows ≡ b) × (length rows ≡ n)

module _ (key : String) (n : ℕ) where
  touch-Has :
      (b : Bool) (id : ℕ) (at : Time) (m k : ℕ)
      → Keeps (λ db. Has b key n db.incidents) (touch_incident id at m k)
  unfolding touch_incident
  touch-Has b id at m k = record {
    at = λ db h. (
      any-update (occupies key) (λ i. incident_is id i && true) (touch_row at m k) db.incidents
            (λ r. refl)
          ∙ h.0,
      length-update (λ i. incident_is id i && true) (touch_row at m k) db.incidents ∙ h.1,
    );
  }

  attach-Has :
      (b : Bool) (a : Alert) (rt : Route) (inc : Incident) (now : Time)
      → Keeps (λ db. Has b key n db.incidents) (attach_to_incident a rt inc now)
  attach-Has b a rt inc now =
      attach-Keeps (timers_keep_incidents (Has b key n)) (rows_keep_incidents (Has b key n))
        (touch-Has b) a rt inc now

  insert-Has :
      (i : Incident)
      → occupies key i ≡ true
      → Leads
          (λ db. Has false key n db.incidents)
          (λ db. Has true key (suc n) db.incidents)
          (insert_incident i)
  unfolding insert_incident
  insert-Has i mine = record {
    at = λ db h.
        let added : (row : Incident)
            → occupies key row ≡ true
            → Has true key (suc n) (db.incidents ++ row ∷ []) =
          λ row e. (
            any-last (occupies key) db.incidents row e,
            omega (arith, h.1, length-append db.incidents (row ∷ [])),
          ) in
        search (Ensures-if, added);
  }

  open-Has :
      (a : Alert) (rt : Route) (now : Time)
      → Leads
          (λ db. Has false key n db.incidents)
          (λ db. Has true key (suc n) db.incidents)
          (open_incident a rt key now)
  unfolding open_incident new_incident
  open-Has a rt now =
      let rows = rows_keep_incidents (Has true key (suc n)) in
      Leads-before _ _ (insert-Has (new_incident a rt key now) (ground (arith, eq_iff key key)))
        λ id. Keeps-bind _ _ (rows.insert_alert_keeps _) λ _.
          Keeps-bind _ _ (rows.insert_event_keeps _ _ _ _) λ _.
            Keeps-bind _ _ ((timers_keep_incidents (Has true key (suc n))).insert_timer_keeps _)
              (λ _. Keeps-pure tt)

  -- One alert with the key: where an incident is open it joins it; where none is, it opens one, or,
  -- resolved, opens none.
  taken-search :
      (db : Db)
      → any (occupies key) db.incidents ≡ true
      → (i : Incident) × (open_incident_by_group_key key db ≡ ok (i, db))
  unfolding open_incident_by_group_key
  taken-search db h = elim (Option-cases (find (occupies key) db.incidents)) [
    | inl e ↦ absurd (cc (find-none (occupies key) db.incidents e, h))
    | inr (i, e) ↦ (i, ground (arith, e))
  ]

  free-search :
      (db : Db)
      → any (occupies key) db.incidents ≡ false
      → open_incident_by_group_key key db ≡ err no_open_incident
  unfolding open_incident_by_group_key
  free-search db h = elim (Option-cases (find (occupies key) db.incidents)) [
    | inl e ↦ ground (arith, e)
    | inr (i, e) ↦ absurd (cc (find-any (occupies key) db.incidents e, h))
  ]

  -- At most one incident more than `n`, which is open if it is there.
  abbrev pub AtMostOne : List Incident → Type 0
  AtMostOne rows = Has false key n rows ⊎ Has true key (suc n) rows

module _ (env : Env) (now : Time) (key : String) (n : ℕ) (a : Alert) (rt : Route)
    (mine : Route.group_key env.hash rt a.labels ≡ key) where
  pub taken-apply :
      (db : Db)
      → Has true key n db.incidents
      → Ensures (λ db'. Has true key n db'.incidents) (apply_alert env now (a, rt) db)
  unfolding apply_alert
  taken-apply db h =
      let (i, e) = taken-search key n db h.0 in
      rw mine (
        rw e (
          (Keeps-bind _ _ (attach-Has key n true a rt i now)
              (λ d. Keeps-pure (record { created = false; deduped = d }))).at
            db h))

  pub free-apply :
      (db : Db)
      → Has false key n db.incidents
      → Ensures (λ db'. AtMostOne key n db'.incidents) (apply_alert env now (a, rt) db)
  unfolding apply_alert
  free-apply db h = rw mine (rw (free-search key n db h.0) (by_status (Bool-cases (is_resolved a))))
    where
      by_status :
          (is_resolved a ≡ true) ⊎ (is_resolved a ≡ false)
          → Ensures (λ db'. AtMostOne key n db'.incidents) (no_group a rt key now db)
      by_status (inl e) = rw e (
          Ensures-map (λ db'. Has false key n db'.incidents) (λ db'. AtMostOne key n db'.incidents)
            (λ db' h. inl h) _
            ((Keeps-bind _ _ ((rows_keep_incidents (Has false key n)).insert_alert_keeps a)
                (λ _. Keeps-pure _)).at
              db h))
      by_status (inr e) = rw e (
          Ensures-map (λ db'. Has true key (suc n) db'.incidents)
            (λ db'. AtMostOne key n db'.incidents) (λ db' h. inr h) _
            ((Leads-before _ _ (open-Has key n a rt now) (λ _. Keeps-pure _)).at db h))
