-- ===== src/Store/Timers.antt =====
-- internal/store/timers.go: the durable timers.
use kerberon.Base.{
  ℕ, ◌==◌, Bool, not, ◌&&◌, ◌||◌, Option, none, some, List, [], ◌∷◌, ◌++◌, take, filter, find, any,
  count, if◌then◌else◌, ltb, leb, true,
}
use kerberon.Base.Sort.{sort}
use kerberon.Core.Time.{Time, to_unix, stored}
use kerberon.Core.Enums.{TimerKind, timer_kind_valid, kind_eq}
use kerberon.Core.Records.{Timer, is_pending}
use kerberon.Store.Table.{update, next_id}
use kerberon.Store.Tx.{
  Db, Tx, Result, ok, err, has_incident, invalid_timer_kind, requires, foreign_key,
  timer_not_pending, no_rows,
}

-- `InsertTimer` answers with the id of the new row.
unfoldable pub insert_timer : Timer → Tx ℕ
insert_timer t db =
    if not (timer_kind_valid t.kind)
    then err (invalid_timer_kind t.kind)
    else if t.incident_id == 0
    then err (requires "incident id")
    else if t.created_at == 0
    then err (requires "created_at")
    else if has_incident t.incident_id db
    then ok (id, record db { timers = db.timers ++ row ∷ [] })
    else err foreign_key
  where
    id : ℕ
    id = next_id (λ (r : Timer). r.id) db.timers

    row : Timer
    row = record {
      id = id;
      incident_id = t.incident_id;
      kind = t.kind;
      fire_at = stored t.fire_at;
      payload = t.payload;
      created_at = stored t.created_at;
      claimed_at = none;
      completed_at = none;
      cancelled_at = none;
    }

abbrev pub timer_is : ℕ → Timer → Bool
timer_is id t = t.id == id

-- `Timer` reads a row whatever its state; `LoadPendingTimer` wants it pending.
unfoldable pub timer : Db → ℕ → Result Timer
timer db id = elim (find (timer_is id) db.timers) [ none ↦ err no_rows | some t ↦ ok t ]

unfoldable pub load_pending_timer : ℕ → Tx Timer
load_pending_timer id db = elim (find (timer_is id) db.timers) [
  | none ↦ err timer_not_pending
  | some t ↦ if is_pending t then ok (t, db) else err timer_not_pending
]

abbrev pub completed : Time → Timer → Timer
completed at t = record t { completed_at = some (stored at) }

abbrev pub cancelled : Time → Timer → Timer
cancelled at t = record t { cancelled_at = some (stored at) }

unfoldable pub complete_timer : ℕ → Time → Tx Unit
complete_timer id at db =
    if count hit db.timers == 0
    then err timer_not_pending
    else ok (tt, record db { timers = update hit (completed at) db.timers })
  where
    hit : Timer → Bool
    hit t = timer_is id t && is_pending t

unfoldable pub cancel_timer : ℕ → Time → Tx Unit
cancel_timer id at db = ok (
  tt,
  record db { timers = update (λ t. timer_is id t && is_pending t) (cancelled at) db.timers },
)

-- `kind IN (...)`, which is left out of the query when no kind is named.
abbrev pub kind_in : List TimerKind → TimerKind → Bool
kind_in [] k = true
kind_in (x ∷ kinds) k = any (kind_eq k) (x ∷ kinds)

-- The rows that `CancelIncidentTimersExcept` writes; 0 spares none.
abbrev pub cancels : ℕ → ℕ → List TimerKind → Timer → Bool
cancels incident_id except_id kinds t =
    t.incident_id == incident_id
    && is_pending t
    && (except_id == 0 || not (t.id == except_id))
    && kind_in kinds t.kind

unfoldable pub cancel_incident_timers_except : ℕ → ℕ → Time → List TimerKind → Tx ℕ
cancel_incident_timers_except incident_id except_id at kinds db =
    let hit : Timer → Bool = cancels incident_id except_id kinds in
    ok (count hit db.timers, record db { timers = update hit (cancelled at) db.timers })

unfoldable pub cancel_incident_timers : ℕ → Time → List TimerKind → Tx ℕ
unfolding cancel_incident_timers_except
cancel_incident_timers incident_id at kinds = cancel_incident_timers_except incident_id 0 at kinds

-- ORDER BY fire_at ASC, id ASC
abbrev pub sooner : Timer → Timer → Bool
sooner a b =
    ltb (to_unix a.fire_at) (to_unix b.fire_at)
    || (to_unix a.fire_at == to_unix b.fire_at && leb a.id b.id)

unfoldable pub pending_timers : Db → List Timer
pending_timers db = sort sooner (filter is_pending db.timers)

-- `NextPendingTimers`; a limit of 0 is taken for 1.
unfoldable pub next_pending_timers : Db → ℕ → List Timer
unfolding pending_timers
next_pending_timers db limit = take (if limit == 0 then 1 else limit) (pending_timers db)

unfoldable pub earliest_pending_timer : Db → Option Timer
unfolding pending_timers
earliest_pending_timer db = elim (pending_timers db) [ [] ↦ none | t ∷ rest ↦ some t ]
