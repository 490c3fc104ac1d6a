-- ===== src/Invariant/OpenGroup.antt =====
-- At most one incident is open for a group key, whatever happens: the insertion is refused by the
-- partial unique index, and no other statement opens a closed incident.
use kerberon.Base.{
  ◌≤◌, String, eq_iff, ◌≡◌, Bool, true, false, List, [], ◌∷◌, ◌++◌, arith, count, any, count-append,
  ◌&&◌, Bool-cases, inl, inr, subst, if◌then◌else◌,
}
use kerberon.Core.Time.{Time}
use kerberon.Core.Enums.{is_open}
use kerberon.Core.Records.{Incident}
use kerberon.Store.Table.{count-update-le, count-any, update}
use kerberon.Store.Tx.{Db}
use kerberon.Store.Incidents.{occupies}
use kerberon.Timer.{Scheduler}
use kerberon.System.{Config, Call, run}
use kerberon.Invariant.Tame.{Tame, tame_statements}
use kerberon.Escalate.Engine.{Env}
use kerberon.Invariant.Primitive.{Primitive}
use kerberon.Invariant.Tables.{timers_keep_incidents, rows_keep_incidents, outbox_keeps_incidents}
use kerberon.Invariant.Calls.{run-Keeps}

-- At most one row is open for the key.
abbrev pub OneOpen : String → List Incident → Type 0
OneOpen key rows = count (occupies key) rows ≤ 1

occupies-is :
    (i : Incident) (key : String)
    → occupies key i ≡ true
    → (i.group_key ≡ key) × (is_open i.status ≡ true)
occupies-is i key h = ground (arith, eq_iff i.group_key key)

insert-OneOpen :
    (rows : List Incident) (i : Incident) (key : String)
    → (is_open i.status && any (occupies i.group_key) rows) ≡ false
    → count (occupies key) rows ≤ 1
    → count (occupies key) (rows ++ i ∷ []) ≤ 1
insert-OneOpen rows i key free one = elim (Bool-cases (occupies key i)) [
  | inl e ↦
      let (same, opened) = occupies-is i key e in
      let none_yet : any (occupies key) rows ≡ false =
        subst (λ k. any (occupies k) rows ≡ false) same (ground (arith, opened, free)) in
      ground
        (arith, count-append (occupies key) rows (i ∷ []), count-any (occupies key) rows none_yet)
  | inr e ↦ ground (arith, e, count-append (occupies key) rows (i ∷ []))
]

Tame-occupies :
    {p : Incident → Bool} {f : Incident → Incident} (t : Tame p f) (key : String) (i : Incident)
    → occupies key (if p i then f i else i) ≡ true
    → occupies key i ≡ true
Tame-occupies {p} {f} t key i h = elim (Bool-cases (p i)) [
  | inl e ↦
      let (same, opened) = occupies-is (f i) key (rw e at h) in
      let mine : i.group_key ≡ key = cc (t.same_key i, same) in
      ground (arith, t.opens_none i e opened, (eq_iff i.group_key key).1 mine)
  | inr e ↦ ground (arith, e, h)
]

-- A statement that opens no closed row keeps the property.
update-OneOpen :
    (key : String) (rows : List Incident) (p : Incident → Bool) (f : Incident → Incident)
    → Tame p f
    → OneOpen key rows
    → OneOpen key (update p f rows)
update-OneOpen key rows p f t one =
    omega (arith, count-update-le (occupies key) p f rows (Tame-occupies t key), one)

OneOpen-Primitive : {env : Env} → (key : String) → Primitive env (λ db. OneOpen key db.incidents)
OneOpen-Primitive key = record {
  timers = timers_keep_incidents (OneOpen key);
  incidents =
      tame_statements (OneOpen key) (λ rows i fresh free one. insert-OneOpen rows i key free one)
        (update-OneOpen key);
  rows = rows_keep_incidents (OneOpen key);
  outbox = outbox_keeps_incidents (OneOpen key);
}

-- Where at most one incident is open for a group key, this is so after any sequence of calls: alerts
-- that arrive, passes of the scheduler, acknowledgements and manual resolutions, in any order and at
-- any instants.
pub run-OneOpen :
    (c : Config) (calls : List (Time × Call)) (st : Scheduler × Db) (key : String)
    → OneOpen key st.1.incidents
    → OneOpen key (run c calls st).1.incidents
run-OneOpen c calls st key one = run-Keeps c (OneOpen-Primitive key) calls st one
