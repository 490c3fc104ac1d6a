-- ===== src/Api/Taps.antt =====
-- Taps on the links of one incident (`handleAckLink` of internal/api/ack.go).
use kerberon.Base.{
  ℕ, ◌≡◌, refl, ap, ◌∙◌, ◌⊎◌, not, some, inl, inr, Bool-cases, Option-cases, String,
}
use kerberon.Base.Bytes.{Bytes}
use kerberon.Core.Time.{Time}
use kerberon.Core.Enums.{AckVia}
use kerberon.Store.Tx.{Db, Error, Result, ok, err, commit, not_acknowledgeable}
use kerberon.Store.Incidents.{incident}
use kerberon.Escalate.Engine.{acknowledge}
use kerberon.Escalate.Answered.{ack_stops_escalation}
use kerberon.Ack.{verify_any}
use kerberon.Ack.Link.{Parsed, parse_link_path}
use kerberon.Api.{Server, answer_tap, handle_parsed, handle_ack_link}

Result-cases : {A : Type 0} (r : Result A) → ((e : Error) × (r ≡ err e)) ⊎ ((a : A) × (r ≡ ok a))
Result-cases (err e) = inl (e, refl)
Result-cases (ok a) = inr (a, refl)

module _ (text : Bytes → String) (srv : Server) where
  -- Where the incident cannot be acknowledged, a tap changes nothing.
  idle_tap :
      (p : Parsed) (now : Time) (db : Db)
      → commit (acknowledge p.incident_id (text p.user_id) AckVia.link now) db
        ≡ (err not_acknowledgeable, db)
      → (handle_parsed text srv p now db).1 ≡ db
  unfolding handle_parsed answer_tap
  idle_tap p now db h = elim (Option-cases srv.signer) [
    | inl e ↦ rw (e, handle_parsed) refl
    | inr (sign, e) ↦ elim (Bool-cases (not srv.acker)) [
      | inl f ↦ rw (e, f, handle_parsed) refl
      | inr f ↦ elim (Result-cases (incident db p.incident_id)) [
        | inl (x, g) ↦ rw (e, f, g, handle_parsed) refl
        | inr (inc, g) ↦
            elim (Option-cases (verify_any sign p.incident_id p.user_id inc.current_step p.token)) [
              | inl k ↦ rw (e, f, g, k, handle_parsed) refl
              | inr (step, k) ↦ rw (e, f, g, k, h, handle_parsed) refl
            ]
      ]
    ]
  ]

  -- Once an incident has been acknowledged, in whatever way, a tap on any link of it changes nothing, at any
  -- later time.
  pub tap_changes_nothing :
      (id : ℕ) (user : String) (via : AckVia) (now later : Time) (db : Db) (path : Bytes)
      (p : Parsed)
      → (commit (acknowledge id user via now) db).0 ≡ ok tt
      → parse_link_path path ≡ some p
      → p.incident_id ≡ id
      → (handle_ack_link text srv path later (commit (acknowledge id user via now) db).1).1
        ≡ (commit (acknowledge id user via now) db).1
  unfolding handle_ack_link
  tap_changes_nothing id user via now later db path p done link same =
      let after = (commit (acknowledge id user via now) db).1 in
      let refused =
        (ack_stops_escalation id user via now db done).1 (text p.user_id) AckVia.link later in
      rw (link, handle_ack_link)
        (idle_tap p later after (
          ap (λ i. commit (acknowledge i (text p.user_id) AckVia.link later) after) same ∙ refused))
