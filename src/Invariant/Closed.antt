-- ===== src/Invariant/Closed.antt =====
-- A closed incident stays closed: the writes that set a status ask for an open one.
use kerberon.Base.{
  ℕ, ◌≡◌, Bool, false, some, List, [], ◌∷◌, ◌++◌, arith, find, ap, ◌∙◌, if◌then◌else◌, Bool-cases,
  inl, inr,
}
use kerberon.Core.Time.{Time}
use kerberon.Core.Enums.{is_open}
use kerberon.Core.Records.{Incident}
use kerberon.Store.Table.{update, find-append, find-update, map_opt}
use kerberon.Store.Incidents.{incident_is}
use kerberon.Store.Tx.{Db}
use kerberon.Timer.{Scheduler}
use kerberon.System.{Config, Call, run}
use kerberon.Invariant.Tame.{Tame, tame_statements}
use kerberon.Escalate.Engine.{Env}
use kerberon.Invariant.Primitive.{Primitive}
use kerberon.Invariant.Tables.{timers_keep_incidents, rows_keep_incidents, outbox_keeps_incidents}
use kerberon.Invariant.Calls.{run-Keeps}

-- The incident with the id is there, and not open.
abbrev pub IsClosed : ℕ → List Incident → Type 0
IsClosed id rows =
    (i : Incident) × (find (incident_is id) rows ≡ some i) × (is_open i.status ≡ false)

append-IsClosed :
    (id : ℕ) (rows : List Incident) (i : Incident) → IsClosed id rows → IsClosed id (rows ++ i ∷ [])
append-IsClosed id rows i (r, found, closed) =
    (r, find-append (incident_is id) rows (i ∷ []) found, closed)

same-incident_is :
    {p : Incident → Bool} {f : Incident → Incident}
    → Tame p f
    → (id : ℕ) (i : Incident) → incident_is id (f i) ≡ incident_is id i
same-incident_is t id i = ground (arith, t.same_id i)

Tame-closed :
    {p : Incident → Bool} {f : Incident → Incident}
    → Tame p f
    → (i : Incident) → is_open i.status ≡ false
    → is_open (if p i then f i else i).status ≡ false
Tame-closed {p} {f} t i h = elim (Bool-cases (p i)) [
  | inl e ↦ rw e (ground (arith, t.opens_none i e, h))
  | inr e ↦ rw e h
]

update-IsClosed :
    (id : ℕ) (rows : List Incident) (p : Incident → Bool) (f : Incident → Incident)
    → Tame p f
    → IsClosed id rows
    → IsClosed id (update p f rows)
update-IsClosed id rows p f t (r, found, closed) = (
  if p r then f r else r,
  find-update (incident_is id) p f rows (same-incident_is t id)
      ∙ ap (map_opt (λ r. if p r then f r else r)) found,
  Tame-closed t r closed,
)

IsClosed-Primitive : {env : Env} → (id : ℕ) → Primitive env (λ db. IsClosed id db.incidents)
IsClosed-Primitive id = record {
  timers = timers_keep_incidents (IsClosed id);
  incidents =
      tame_statements (IsClosed id) (λ rows i fresh free. append-IsClosed id rows i)
        (update-IsClosed id);
  rows = rows_keep_incidents (IsClosed id);
  outbox = outbox_keeps_incidents (IsClosed id);
}

-- An incident that is resolved, expired or suppressed is still there and still not open after any
-- sequence of calls: no alert, timer, acknowledgement or resolution opens it again.
pub run-IsClosed :
    (c : Config) (calls : List (Time × Call)) (st : Scheduler × Db) (id : ℕ)
    → IsClosed id st.1.incidents
    → IsClosed id (run c calls st).1.incidents
run-IsClosed c calls st id closed = run-Keeps c (IsClosed-Primitive id) calls st closed
