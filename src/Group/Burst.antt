-- ===== src/Group/Burst.antt =====
-- A burst of alerts for one group through the whole of `Ingest` (internal/group/group.go).
use kerberon.Base.{
  ℕ, zero, suc, ◌+◌, ◌≤◌, ◌≡◌, refl, inl, inr, String, true, List, [], ◌∷◌, arith, any, All,
  All-take, All-drop, take, drop, length, Bool-cases, if◌then◌else◌,
}
use kerberon.Core.Time.{Time}
use kerberon.Core.Records.{Alert, Incident}
use kerberon.Route
use kerberon.Route.{Route}
use kerberon.Store.Tx.{Db, Result, ok, err}
use kerberon.Store.Keeps.{Keeps, Ensures, Keeps-pure, Keeps-bind, commit-Keeps, Ensures-map}
use kerberon.Store.Incidents.{occupies}
use kerberon.Group.Engine.{Env, apply_alert}
use kerberon.Group.Ingest.{
  Summary, nothing, add_applied, add_summary, tx_chunk, route_all, Outcome, after_chunk,
  apply_chunk, ingest_chunks, ingest,
}
use kerberon.Group.Cascade.{Has, AtMostOne, taken-apply, free-apply}

module _ (env : Env) (now : Time) (key : String) where
  abbrev Mine : Alert × Route → Type 0
  Mine p = Route.group_key env.hash p.1 p.0.labels ≡ key

  -- A property of the table that an alert of the group keeps, the whole of an ingestion keeps.
  module _ (Q : List Incident → Type 0)
      (one : (p : Alert × Route)
        → Mine p
        → Keeps (λ db. Q db.incidents) (apply_alert env now p)) where
    chunk-Keeps :
        (s : Summary) (chunk : List (Alert × Route))
        → All Mine chunk
        → Keeps (λ db. Q db.incidents) (apply_chunk env now s chunk)
    unfolding apply_chunk
    chunk-Keeps s [] m = Keeps-pure s
    chunk-Keeps s (p ∷ chunk) m =
        Keeps-bind _ _ (one p m.0) λ r. chunk-Keeps (add_applied r s) chunk m.1

    after-Keeps :
        (rest : Summary → Db → Outcome) (s : Summary) (r : Result Summary) (db : Db)
        → ((s' : Summary) (db' : Db) → Q db'.incidents → Q (rest s' db').1.incidents)
        → Q db.incidents
        → Q (after_chunk rest s (r, db)).1.incidents
    after-Keeps rest s (ok c) db k h = k (add_summary s c) db h
    after-Keeps rest s (err e) db k h = h

    chunks-keep :
        (fuel : ℕ) (s : Summary) (pending : List (Alert × Route)) (db : Db)
        → All Mine pending
        → Q db.incidents
        → Q (ingest_chunks env now fuel s pending db).1.incidents
    unfolding ingest_chunks
    chunks-keep fuel s [] db m q = q
    chunks-keep zero s (p ∷ pending) db m q = q
    chunks-keep (suc fuel) s (p ∷ pending) db m q =
        let chunk = take tx_chunk (p ∷ pending) in
        let left = drop tx_chunk (p ∷ pending) in
        after-Keeps (λ s' db'. ingest_chunks env now fuel s' left db') s _ _
          (λ s' db'. chunks-keep fuel s' left db' (All-drop Mine tx_chunk (p ∷ pending) m))
          (commit-Keeps (apply_chunk env now nothing chunk)
            (chunk-Keeps nothing chunk (All-take Mine tx_chunk (p ∷ pending) m)) db q)

  apply-taken :
      (n : ℕ) (p : Alert × Route)
      → Mine p
      → Keeps (λ db. Has true key n db.incidents) (apply_alert env now p)
  apply-taken n (a, rt) m = record { at = taken-apply env now key n a rt m }

  apply-AtMostOne :
      (n : ℕ) (p : Alert × Route)
      → Mine p
      → Keeps (λ db. AtMostOne key n db.incidents) (apply_alert env now p)
  apply-AtMostOne n (a, rt) m = record { at = λ db h. by_case db h }
    where
      by_case :
          (db : Db)
          → AtMostOne key n db.incidents
          → Ensures (λ db'. AtMostOne key n db'.incidents) (apply_alert env now (a, rt) db)
      by_case db (inl h) = free-apply env now key n a rt m db h
      by_case db (inr h) =
          Ensures-map (λ db'. Has true key (suc n) db'.incidents)
            (λ db'. AtMostOne key n db'.incidents) (λ db' h. inr h) _
            (taken-apply env now key (suc n) a rt m db h)

AtMostOne-le :
    (key : String) (n : ℕ) (rows : List Incident) → AtMostOne key n rows → length rows ≤ suc n
AtMostOne-le key n rows (inl h) = omega (arith, h.1)
AtMostOne-le key n rows (inr h) = omega (arith, h.1)

-- However many alerts arrive at once, in however many transactions, if all that have a route fall into
-- one group, then they open at most one incident; and none where one is open for the group already.
pub burst_opens_one :
    (env : Env) (now : Time) (routes : List Route) (alerts : List Alert) (db : Db) (key : String)
    → All (λ p. Route.group_key env.hash p.1 p.0.labels ≡ key) (route_all env.hash routes alerts).0
    → length (ingest env now routes alerts db).1.incidents
      ≤ length db.incidents + (if any (occupies key) db.incidents then 0 else 1)
unfolding ingest
burst_opens_one env now routes alerts db key m =
    let n = length db.incidents in
    let (pending, unrouted) = route_all env.hash routes alerts in
    let start = record nothing { unrouted = unrouted } in
    elim (Bool-cases (any (occupies key) db.incidents)) [
      | inl e ↦
          let same =
            chunks-keep env now key (Has true key n) (apply-taken env now key n) (length pending)
              start pending db m (e, refl) in
          rw e (omega (arith, same.1))
      | inr e ↦
          let few = AtMostOne-le key n _ (
            chunks-keep env now key (AtMostOne key n) (apply-AtMostOne env now key n)
              (length pending) start pending db m (inl (e, refl))) in
          rw e (omega (arith, few))
    ]
