-- ===== src/Store/Overrides.antt =====
-- internal/store/overrides.go: covers of a shift.
use kerberon.Base.{
  ℕ, ◌+◌, ◌==◌, String, str_eq, Bool, not, ◌&&◌, ◌||◌, List, [], ◌∷◌, ◌++◌, filter, count,
  if◌then◌else◌, ltb, leb,
}
use kerberon.Base.Sort.{sort}
use kerberon.Core.Time.{Time, to_unix, stored}
use kerberon.Core.Records.{Override}
use kerberon.Store.Table.{next_id}
use kerberon.Store.Tx.{Db, Tx, ok, err, requires}

unfoldable pub insert_override : Override → Tx ℕ
insert_override o db =
    if str_eq o.schedule_name ""
    then err (requires "schedule name")
    else if str_eq o.user_id ""
    then err (requires "user")
    else if not (ltb o.starts_at o.ends_at)
    then err (requires "end after its start")
    else ok (id, record db { overrides = db.overrides ++ row ∷ [] })
  where
    id : ℕ
    id = next_id (λ (r : Override). r.id) db.overrides

    row : Override
    row = record o {
      id = id;
      starts_at = stored o.starts_at;
      ends_at = stored o.ends_at;
      created_at = stored o.created_at;
    }

-- starts_at < to AND ends_at > from, in seconds.
abbrev pub overlaps : String → Time → Time → Override → Bool
overlaps name from to o =
    str_eq o.schedule_name name
    && ltb (to_unix o.starts_at) (to_unix to)
    && ltb (to_unix from) (to_unix o.ends_at)

-- ORDER BY created_at ASC, id ASC
abbrev pub made_before : Override → Override → Bool
made_before a b =
    ltb (to_unix a.created_at) (to_unix b.created_at)
    || (to_unix a.created_at == to_unix b.created_at && leb a.id b.id)

unfoldable pub overrides_in_window : Db → String → Time → Time → List Override
overrides_in_window db name from to = sort made_before (filter (overlaps name from to) db.overrides)

-- The window of one nanosecond.
unfoldable pub overrides_at : Db → String → Time → List Override
unfolding overrides_in_window
overrides_at db name at = overrides_in_window db name at (at + 1)

abbrev override_is : ℕ → Override → Bool
override_is id o = o.id == id

unfoldable pub delete_override : ℕ → Tx Bool
delete_override id db = ok (
  ltb 0 (count (override_is id) db.overrides),
  record db { overrides = filter (λ o. not (override_is id o)) db.overrides },
)
