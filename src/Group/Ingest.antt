-- ===== src/Group/Ingest.antt =====
-- `Ingest` of internal/group/group.go: route all, then apply them in transactions of 250.
use kerberon.Base.{
  ℕ, zero, suc, ◌+◌, String, Bool, Option, none, some, List, [], ◌∷◌, take, drop, length,
  if◌then◌else◌,
}
use kerberon.Core.Time.{Time}
use kerberon.Core.Records.{Alert}
use kerberon.Route
use kerberon.Route.{Route, match_route}
use kerberon.Store.Tx.{Db, Tx, Error, Result, ok, err, pure, ◌>>=◌, commit}
use kerberon.Group.Engine.{Env, Applied, apply_alert}

-- The counts that `Ingest` reports.
pub record Summary : Type 0 where
  pub alerts_accepted : ℕ
  pub incidents_created : ℕ
  pub alerts_deduplicated : ℕ
  pub unrouted : ℕ

abbrev pub nothing : Summary
nothing = record {
  alerts_accepted = 0;
  incidents_created = 0;
  alerts_deduplicated = 0;
  unrouted = 0;
}

abbrev bit : Bool → ℕ
bit b = if b then 1 else 0

abbrev pub add_applied : Applied → Summary → Summary
add_applied r s = record s {
  alerts_accepted = suc s.alerts_accepted;
  incidents_created = s.incidents_created + bit r.created;
  alerts_deduplicated = s.alerts_deduplicated + bit r.deduped;
}

abbrev pub add_summary : Summary → Summary → Summary
add_summary s c = record s {
  alerts_accepted = s.alerts_accepted + c.alerts_accepted;
  incidents_created = s.incidents_created + c.incidents_created;
  alerts_deduplicated = s.alerts_deduplicated + c.alerts_deduplicated;
}

abbrev pub tx_chunk : ℕ
tx_chunk = 250

-- The alerts with a route, with their fingerprints, and how many have none.
unfoldable pub route_all : (String → String) → List Route → List Alert → List (Alert × Route) × ℕ
route_all hash routes [] = ([], 0)
route_all hash routes (a ∷ alerts) =
    let (pending, unrouted) = route_all hash routes alerts in
    elim (match_route routes a.labels) [
      | none ↦ (pending, suc unrouted)
      | some rt ↦
          ((record a { fingerprint = Route.fingerprint hash rt a.labels }, rt) ∷ pending, unrouted)
    ]

-- The counts, the error that ended the call if one did, and the database.
abbrev pub Outcome : Type 0
Outcome = (Summary × Option Error) × Db

abbrev pub after_chunk : (Summary → Db → Outcome) → Summary → Result Summary × Db → Outcome
after_chunk rest s (err e, db) = ((s, some e), db)
after_chunk rest s (ok c, db) = rest (add_summary s c) db

module _ (env : Env) (now : Time) where
  -- The loop of one transaction, with its counts so far.
  unfoldable pub apply_chunk : Summary → List (Alert × Route) → Tx Summary
  apply_chunk s [] = pure s
  apply_chunk s (p ∷ chunk) = do r ← apply_alert env now p; apply_chunk (add_applied r s) chunk

  -- The chunks in turn. A chunk that fails ends the call; those before it are committed. The fuel is
  -- the number of alerts, and a chunk takes at least one.
  unfoldable pub ingest_chunks : ℕ → Summary → List (Alert × Route) → Db → Outcome
  unfolding commit apply_chunk
  ingest_chunks fuel s [] db = ((s, none), db)
  ingest_chunks zero s (p ∷ pending) db = ((s, none), db)
  ingest_chunks (suc fuel) s (p ∷ pending) db =
      after_chunk (λ s' db'. ingest_chunks fuel s' (drop tx_chunk (p ∷ pending)) db') s
        (commit (apply_chunk nothing (take tx_chunk (p ∷ pending))) db)

  unfoldable pub ingest : List Route → List Alert → Db → Outcome
  unfolding route_all ingest_chunks
  ingest routes alerts db =
      let (pending, unrouted) = route_all env.hash routes alerts in
      ingest_chunks (length pending) (record nothing { unrouted = unrouted }) pending db
