-- ===== src/Api/Intake.antt =====
-- internal/ingest/ingest.go: an authenticated request with alerts, from its decoded body to the counts of the
-- reply. How many bytes of a body are read is left to `net/http`, whose outcome is given.
use Prim.Native.String.{slice, len}
use kerberon.Base.{ℕ, String, str_eq, ◌&&◌, Option, none, some, List, ltb, if◌then◌else◌}
use kerberon.Core.Time.{Time}
use kerberon.Core.Records.{Alert}
use kerberon.Store.Tx.{Db, Error}
use kerberon.Route.{Route}
use kerberon.Group.Engine.{Env}
use kerberon.Group.Ingest.{Summary, ingest}
use kerberon.Alert.Text.{to_lower}
use kerberon.Alert.Normalize.{
  AlertmanagerPayload, GenericPayload, parse_alertmanager, parse_grafana, parse_generic,
}

-- A body that is over the limit, one that cannot be read, and one that is whole: what it decodes to.
pub data Body (A : Type 0) : Type 0 where
  too_large unreadable : Body A
  whole : Option A → Body A

pub data Counted : Type 0 where
  rejected : ℕ → Counted
  counted : Summary → Counted

abbrev bearer : String
bearer = "Bearer "

-- The header where it has the prefix in any case, or the parameter of the query.
unfoldable pub bearer_token : String → String → String
unfolding to_lower
bearer_token header query =
    if ltb (len bearer) (len header)
      && str_eq (to_lower (slice header 0 (len bearer))) (to_lower bearer)
    then slice header (len bearer) (len header)
    else query

unfoldable pub answer_ingest : (Summary × Option Error) × Db → Counted × Db
answer_ingest ((s, none), db) = (counted s, db)
answer_ingest ((s, some e), db) = (rejected 500, db)

module _ (env : Env) (routes : List Route) where
  abbrev take_in : Option (List Alert) → Time → Db → Counted × Db
  take_in none now db = (rejected 400, db)
  take_in (some alerts) now db = answer_ingest (ingest env now routes alerts db)

  -- `handle`, for a parser.
  unfoldable pub handle :
      {A : Type 0} → (Option A → Option (List Alert)) → Body A → Time → Db → Counted × Db
  unfolding ingest answer_ingest
  handle parse too_large now db = (rejected 413, db)
  handle parse unreadable now db = (rejected 400, db)
  handle parse (whole decoded) now db = take_in (parse decoded) now db

  module _ (parse_rfc3339 : String → Option (Time × ℕ)) where
    unfoldable pub handle_generic : Body GenericPayload → Time → Db → Counted × Db
    unfolding handle parse_generic
    handle_generic body now db = handle (parse_generic parse_rfc3339 now) body now db

    unfoldable pub handle_alertmanager : Body AlertmanagerPayload → Time → Db → Counted × Db
    unfolding handle parse_alertmanager
    handle_alertmanager body now db = handle (parse_alertmanager parse_rfc3339 now) body now db

    unfoldable pub handle_grafana : Body AlertmanagerPayload → Time → Db → Counted × Db
    unfolding handle parse_grafana
    handle_grafana body now db = handle (parse_grafana parse_rfc3339 now) body now db

-- `Authenticate`: the next handler, or 401.
unfoldable pub authenticate : String → String → String → (Db → Counted × Db) → Db → Counted × Db
unfolding bearer_token
authenticate token header query next db =
    if str_eq (bearer_token header query) token then next db else (rejected 401, db)
