-- ===== src/Api/Counted.antt =====
-- The counts of a reply (`handle` of internal/ingest/ingest.go) beside the alerts of the request.
use kerberon.Base.{
  ℕ, ◌+◌, ◌==◌, ◌≡◌, refl, ap, sym, ◌∙◌, inl, inr, Option, none, some, List, [], ◌∷◌, length, ltb,
  String, arith, Bool-cases, Option-cases,
}
use kerberon.Core.Time.{Time}
use kerberon.Core.Records.{Alert}
use kerberon.Store.Tx.{Db, Error}
use kerberon.Route.{Route}
use kerberon.Group.Engine.{Env}
use kerberon.Group.Ingest.{Summary, ingest}
use kerberon.Group.Counts.{ingest_counts_all}
use kerberon.Alert.Normalize.{
  AlertmanagerPayload, parse_alert, parse_each, parse_alertmanager, max_alerts,
}
use kerberon.Api.Intake.{whole, counted, answer_ingest, handle, handle_alertmanager}

parse_each-length :
    {A : Type 0} (f : A → Option Alert) (raws : List A) (alerts : List Alert)
    → parse_each f raws ≡ some alerts
    → length alerts ≡ length raws
unfolding parse_each
parse_each-length f [] alerts h = let same : [] ≡ alerts = cc h in ap length (sym same)
parse_each-length f (raw ∷ raws) alerts h = elim (Option-cases (f raw)) [
  | inl e ↦ absurd (cc (rw e at h))
  | inr (a, e) ↦ elim (Option-cases (parse_each f raws)) [
    | inl g ↦ absurd (cc (rw (e, g) at h))
    | inr (rest, g) ↦
        let same : a ∷ rest ≡ alerts = cc (rw (e, g) at h) in
        let shorter = parse_each-length f raws rest g in
        ap length (sym same) ∙ omega (arith, shorter)
  ]
]

module _ (parse_rfc3339 : String → Option (Time × ℕ)) (now : Time) where
  parse_alertmanager-length :
      (p : AlertmanagerPayload) (alerts : List Alert)
      → parse_alertmanager parse_rfc3339 now (some p) ≡ some alerts
      → length alerts ≡ length p.alerts
  unfolding parse_alertmanager
  parse_alertmanager-length p alerts h = elim (Bool-cases (length p.alerts == 0)) [
    | inl e ↦ absurd (cc (rw (e, parse_alertmanager) at h))
    | inr e ↦ elim (Bool-cases (ltb max_alerts (length p.alerts))) [
      | inl f ↦ absurd (cc (rw (e, f, parse_alertmanager) at h))
      | inr f ↦
          parse_each-length (parse_alert parse_rfc3339 now p) p.alerts alerts
            (rw (e, f, parse_alertmanager) at h)
    ]
  ]

  answer_ingest-counted :
      (o : (Summary × Option Error) × Db) (s : Summary) (db' : Db)
      → answer_ingest o ≡ (counted s, db')
      → (o.0.0 ≡ s) × (o.0.1 ≡ none)
  unfolding answer_ingest
  answer_ingest-counted ((s', none), db) s db' h = (cc h, refl)
  answer_ingest-counted ((s', some e), db) s db' h = absurd (cc h)

  -- A reply with counts to a payload of Alertmanager counts each of the payload's alerts once: as accepted or
  -- as unrouted.
  pub reply_counts_all :
      (env : Env) (routes : List Route) (p : AlertmanagerPayload) (db db' : Db) (s : Summary)
      → handle_alertmanager env routes parse_rfc3339 (whole (some p)) now db ≡ (counted s, db')
      → s.alerts_accepted + s.unrouted ≡ length p.alerts
  unfolding handle_alertmanager handle
  reply_counts_all env routes p db db' s h =
      elim (Option-cases (parse_alertmanager parse_rfc3339 now (some p))) [
        | inl e ↦ absurd (cc (rw (e, handle_alertmanager, handle) at h))
        | inr (alerts, e) ↦
            let o = ingest env now routes alerts db in
            let (same, fine) =
              answer_ingest-counted o s db' (rw (e, handle_alertmanager, handle) at h) in
            let size = parse_alertmanager-length p alerts e in
            elim (ingest_counts_all env now routes alerts db) [
              | inl all ↦ rw same at all ∙ size
              | inr (x, failed, _) ↦ absurd (cc (fine, failed))
            ]
      ]
