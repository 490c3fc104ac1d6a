-- ===== src/Invariant/Tame.antt =====
-- What the statements on the table of incidents have in common: a write keeps the id and the key of a
-- row and opens none that was closed, and an insertion gives a fresh id and respects the index.
use kerberon.Base.{◌≡◌, refl, Bool, true, false, List, [], ◌∷◌, ◌++◌, arith, any, ◌&&◌}
use kerberon.Core.Enums.{is_open, triggered, expired}
use kerberon.Core.Records.{Incident}
use kerberon.Store.Table.{update, next_id}
use kerberon.Store.Keeps.{Ensures-if}
use kerberon.Store.Incidents.{
  occupies, insert_incident, touch_incident, resolve_incident, acknowledge_incident, store_snapshot,
  set_current_step, expire_incident, resume_incident, incident_is, is_status_open, is_triggered,
  is_acknowledged, resolve_row, acknowledge_row,
}
use kerberon.Invariant.Primitive.{IncidentStatements}

pub record Tame (p : Incident → Bool) (f : Incident → Incident) : Type 0 where
  pub same_id : (i : Incident) → (f i).id ≡ i.id
  pub same_key : (i : Incident) → (f i).group_key ≡ i.group_key
  pub opens_none :
      (i : Incident) → p i ≡ true → is_open (f i).status ≡ true → is_open i.status ≡ true

Tame-keep_status :
    (p : Incident → Bool) (f : Incident → Incident)
    → ((i : Incident) → (f i).id ≡ i.id)
    → ((i : Incident) → (f i).group_key ≡ i.group_key)
    → ((i : Incident) → (f i).status ≡ i.status)
    → Tame p f
Tame-keep_status p f same key status = record {
  same_id = same;
  same_key = key;
  opens_none = λ i h e. ground (arith, status i);
}

is_triggered-is_open : (i : Incident) → is_triggered i ≡ true → is_open i.status ≡ true
is_triggered-is_open i h = ground arith

is_acknowledged-is_open : (i : Incident) → is_acknowledged i ≡ true → is_open i.status ≡ true
is_acknowledged-is_open i h = ground arith

module _ (Q : List Incident → Type 0)
    (insertion : (rows : List Incident) (i : Incident)
      → i.id ≡ next_id (λ (r : Incident). r.id) rows
      → (is_open i.status && any (occupies i.group_key) rows) ≡ false
      → Q rows
      → Q (rows ++ i ∷ []))
    (writing : (rows : List Incident) (p : Incident → Bool) (f : Incident → Incident)
      → Tame p f
      → Q rows
      → Q (update p f rows)) where
  pub tame_statements : IncidentStatements (λ db. Q db.incidents)
  unfolding insert_incident touch_incident resolve_incident acknowledge_incident store_snapshot
      set_current_step expire_incident resume_incident
  tame_statements = record {
    insert_incident_keeps = λ i. record { at = λ db h. search Ensures-if };
    touch_keeps = λ id at n m. record {
      at = λ db h.
          writing db.incidents _ _ (Tame-keep_status _ _ (λ i. refl) (λ i. refl) (λ i. refl)) h;
    };
    resolve_keeps = λ id at by. record {
      at = λ db h.
          writing db.incidents (λ i. incident_is id i && is_status_open i) (resolve_row at by)
            (record {
              same_id = λ i. refl;
              same_key = λ i. refl;
              opens_none = λ i p e. ground arith;
            })
            h;
    };
    acknowledge_keeps = λ id at user. record {
      at = λ db h.
          writing db.incidents (λ i. incident_is id i && is_triggered i) (acknowledge_row at user)
            (record {
              same_id = λ i. refl;
              same_key = λ i. refl;
              opens_none = λ i p e. is_triggered-is_open i (ground arith);
            })
            h;
    };
    snapshot_keeps = λ id s. record {
      at = λ db h.
          writing db.incidents _ _ (Tame-keep_status _ _ (λ i. refl) (λ i. refl) (λ i. refl)) h;
    };
    set_step_keeps = λ id step. record {
      at = λ db h.
          writing db.incidents _ _ (Tame-keep_status _ _ (λ i. refl) (λ i. refl) (λ i. refl)) h;
    };
    expire_keeps = λ id. record {
      at = λ db h.
          writing db.incidents (λ i. incident_is id i && is_triggered i)
            (λ i. record i { status = expired })
            (record {
              same_id = λ i. refl;
              same_key = λ i. refl;
              opens_none = λ i p e. is_triggered-is_open i (ground arith);
            })
            h;
    };
    resume_keeps = λ id. record {
      at = λ db h.
          writing db.incidents (λ i. incident_is id i && is_acknowledged i)
            (λ i. record i { status = triggered })
            (record {
              same_id = λ i. refl;
              same_key = λ i. refl;
              opens_none = λ i p e. is_acknowledged-is_open i (ground arith);
            })
            h;
    };
  }
