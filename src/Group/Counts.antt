-- ===== src/Group/Counts.antt =====
-- The counts that `Ingest` of internal/group/group.go reports: no alert is lost.
use kerberon.Base.{
  ℕ, zero, suc, ◌+◌, ◌≤◌, ◌≡◌, refl, subst, String, none, some, List, [], ◌∷◌, arith, take, drop,
  length, length-take-drop, Option-cases, inl, inr, ◌⊎◌,
}
use kerberon.Core.Time.{Time}
use kerberon.Core.Records.{Alert}
use kerberon.Route.{Route}
use kerberon.Store.Tx.{Db, Tx, Error, Result, ok, err, commit, outcome, continue}
use kerberon.Group.Engine.{Env, Applied, apply_alert}
use kerberon.Group.Ingest.{
  Summary, nothing, add_applied, add_summary, tx_chunk, route_all, Outcome, after_chunk,
  apply_chunk, ingest_chunks, ingest,
}

-- A result that commits has accepted so many.
abbrev Accepts : ℕ → Result (Summary × Db) → Type 0
Accepts n (ok (s, db)) = s.alerts_accepted ≡ n
Accepts n (err e) = Unit

module _ (env : Env) (now : Time) where
  continue-Accepts :
      (n : ℕ) (r : Result (Applied × Db)) (f : Applied → Tx Summary)
      → ((a : Applied) (db : Db) → Accepts n (f a db))
      → Accepts n (continue r f)
  continue-Accepts n (ok (a, db)) f h = h a db
  continue-Accepts n (err e) f h = tt

  apply_chunk-Accepts :
      (s : Summary) (chunk : List (Alert × Route)) (db : Db)
      → Accepts (s.alerts_accepted + length chunk) (apply_chunk env now s chunk db)
  unfolding apply_chunk
  apply_chunk-Accepts s [] db = omega arith
  apply_chunk-Accepts s (p ∷ chunk) db =
      continue-Accepts (s.alerts_accepted + suc (length chunk)) (apply_alert env now p db)
        (λ r. apply_chunk env now (add_applied r s) chunk)
        (λ r db'.
          subst (λ n. Accepts n (apply_chunk env now (add_applied r s) chunk db')) (omega arith)
            (apply_chunk-Accepts (add_applied r s) chunk db'))

  -- Nothing is counted twice, and without an error nothing is left out.
  abbrev Counted : Summary → ℕ → Outcome → Type 0
  Counted s n o =
      (o.0.0.unrouted ≡ s.unrouted)
      × (o.0.0.alerts_accepted ≤ s.alerts_accepted + n)
      × (o.0.1 ≡ none → o.0.0.alerts_accepted ≡ s.alerts_accepted + n)

  after_chunk-Counted :
      (s : Summary) (n m : ℕ) (r : Result (Summary × Db)) (db : Db) (rest : Summary → Db → Outcome)
      → Accepts n r
      → ((s' : Summary) (db' : Db) → Counted s' m (rest s' db'))
      → Counted s (n + m) (after_chunk rest s (outcome r db))
  after_chunk-Counted s n m (err e) db rest a h = (refl, omega arith, λ no. absurd (cc no))
  after_chunk-Counted s n m (ok (c, db')) db rest a h =
      let (u, le, eq) = h (add_summary s c) db' in
      (u, omega (arith, a, le), λ no. omega (arith, a, eq no))

  ingest_chunks-Counted :
      (fuel : ℕ) (s : Summary) (pending : List (Alert × Route)) (db : Db)
      → length pending ≤ fuel
      → Counted s (length pending) (ingest_chunks env now fuel s pending db)
  unfolding ingest_chunks commit
  ingest_chunks-Counted fuel s [] db le = (refl, omega arith, λ no. omega arith)
  ingest_chunks-Counted zero s (p ∷ pending) db le = absurd (omega arith)
  ingest_chunks-Counted (suc fuel) s (p ∷ pending) db le =
      let chunk = take tx_chunk (p ∷ pending) in
      let left = drop tx_chunk (p ∷ pending) in
      let few : length left ≤ fuel = omega (arith, length-take-drop tx_chunk (p ∷ pending)) in
      subst (λ n. Counted s n (ingest_chunks env now (suc fuel) s (p ∷ pending) db))
        (length-take-drop tx_chunk (p ∷ pending))
        (after_chunk-Counted s (length chunk) (length left) (apply_chunk env now nothing chunk db)
          db (λ s' db'. ingest_chunks env now fuel s' left db')
          (subst (λ n. Accepts n (apply_chunk env now nothing chunk db)) (omega arith)
            (apply_chunk-Accepts nothing chunk db))
          (λ s' db'. ingest_chunks-Counted fuel s' left db' few))

-- The alerts with a route and those without make up all.
route_all-length :
    (hash : String → String) (routes : List Route) (alerts : List Alert)
    → length (route_all hash routes alerts).0 + (route_all hash routes alerts).1 ≡ length alerts
unfolding route_all
route_all-length hash routes [] = refl
route_all-length hash routes (a ∷ alerts) = ground (arith, route_all-length hash routes alerts)

-- Whatever arrives: the alerts that an ingestion counts as accepted and those that it counts as
-- unrouted are together all that arrived; or it reports an error, and they are at most those.
pub ingest_counts_all :
    (env : Env) (now : Time) (routes : List Route) (alerts : List Alert) (db : Db)
    → let o = ingest env now routes alerts db in
      (o.0.0.alerts_accepted + o.0.0.unrouted ≡ length alerts)
      ⊎ ((e : Error) × (o.0.1 ≡ some e) × (o.0.0.alerts_accepted + o.0.0.unrouted ≤ length alerts))
unfolding ingest
ingest_counts_all env now routes alerts db =
    let (pending, unrouted) = route_all env.hash routes alerts in
    let all = route_all-length env.hash routes alerts in
    let (u, le, eq) =
      ingest_chunks-Counted env now (length pending) (record nothing { unrouted = unrouted })
        pending db (omega arith) in
    elim (Option-cases (ingest env now routes alerts db).0.1) [
      | inl fine ↦ inl (omega (arith, u, eq fine, all))
      | inr (e, failed) ↦ inr (e, failed, omega (arith, u, le, all))
    ]
