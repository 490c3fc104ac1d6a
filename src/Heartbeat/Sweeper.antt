-- ===== src/Heartbeat/Sweeper.antt =====
-- internal/heartbeat/heartbeat.go: the sweep for switches that missed their window. The sink that
-- takes the alerts is a parameter: it changes the database, or it fails.
use kerberon.Base.{
  ℕ, suc, String, str_eq, Bool, Option, none, some, List, [], ◌∷◌, if◌then◌else◌, any,
}
use kerberon.Core.Time.{Time, Duration}
use kerberon.Core.Enums.{Source, AlertStatus, Severity, never_seen}
use kerberon.Core.Records.{Heartbeat, Alert}
use kerberon.Store.Tx.{Db, Error, Result, ok, err, commit}
use kerberon.Store.Heartbeats.{overdue_heartbeats, mark_heartbeat_missing, insert_heartbeat}

-- The texts that the alert carries: the severity's name and the two annotations.
pub record Texts : Type 0 where
  pub severity_name : Severity → String
  pub summary : Heartbeat → String
  pub description : Heartbeat → String

abbrev pub Sink : Type 0
Sink = List Alert → Db → Result Unit × Db

unfoldable pub synthetic_alert : Texts → Heartbeat → Time → Alert
synthetic_alert texts h now = record {
  id = 0;
  fingerprint = "";
  source = Source.heartbeat;
  status = AlertStatus.firing;
  labels =
      ("alertname", "HeartbeatMissing")
      ∷ ("heartbeat", h.name)
      ∷ ("team", h.team)
      ∷ ("severity", texts.severity_name h.severity)
      ∷ [];
  annotations = ("summary", texts.summary h) ∷ ("description", texts.description h) ∷ [];
  starts_at = now;
  ends_at = none;
  received_at = now;
  incident_id = none;
}

pub record Swept : Type 0 where
  pub raised : ℕ
  pub error : Option Error

module _ (texts : Texts) (sink : Option Sink) (now : Time) where
  abbrev pub send : Heartbeat → Db → Result Unit × Db
  send h db = elim sink [ none ↦ (ok tt, db) | some s ↦ s (synthetic_alert texts h now ∷ []) db ]

  -- The sink's answer: an error ends the sweep.
  abbrev pub raise_next : ℕ → (Db → Swept × Db) → Result Unit × Db → Swept × Db
  raise_next raised rest (err e, db) = (record { raised = raised; error = some e }, db)
  raise_next raised rest (ok _, db) = rest db

  -- The state is flipped in a transaction of its own, before the alert is raised. A switch that was
  -- pinged in the meantime is passed over.
  unfoldable pub sweep_each : ℕ → List Heartbeat → Db → Swept × Db
  unfolding commit synthetic_alert
  sweep_each raised [] db = (record { raised = raised; error = none }, db)
  sweep_each raised (h ∷ overdue) db =
      let (r, db') = commit (mark_heartbeat_missing h.id) db in
      let skip = sweep_each raised overdue db' in
      let sent = raise_next raised (λ d. sweep_each (suc raised) overdue d) (send h db') in
      elim r [
        | err e ↦ (record { raised = raised; error = some e }, db')
        | ok changed ↦ if changed then sent else skip
      ]

  unfoldable pub sweep_once : Db → Swept × Db
  unfolding sweep_each
  sweep_once db = sweep_each 0 (overdue_heartbeats db now) db

-- ─── Registration ───

pub record Declared : Type 0 where
  pub name : String
  pub expected_interval : Duration
  pub grace_period : Duration
  pub team : String
  pub severity : Severity

abbrev known : List Heartbeat → String → Bool
known existing name = any (λ (h : Heartbeat). str_eq h.name name) existing

abbrev declared_row : Declared → String → Time → Heartbeat
declared_row d token now = record {
  id = 0;
  name = d.name;
  token = token;
  expected_interval = d.expected_interval;
  grace_period = d.grace_period;
  team = d.team;
  severity = d.severity;
  last_ping_at = none;
  state = never_seen;
  created_at = now;
}

-- `Sync`: each switch of the configuration that is new gets a row and a token, one of a stream that the
-- generator mints. It answers with the tokens of the new rows.
unfoldable pub sync_each :
    Time → List Heartbeat → (ℕ → String) → List Declared → Db → Result (List (String × String)) × Db
unfolding commit
sync_each now existing mint [] db = (ok [], db)
sync_each now existing mint (d ∷ declared) db =
    let skip = sync_each now existing mint declared db in
    let (r, db') = commit (insert_heartbeat (declared_row d (mint 0) now)) db in
    let (rest, db'') = sync_each now existing (λ n. mint (suc n)) declared db' in
    if known existing d.name then skip else elim r [
      | err e ↦ (err e, db')
      | ok _ ↦ (elim rest [ err e ↦ err e | ok created ↦ ok ((d.name, mint 0) ∷ created) ], db'')
    ]

unfoldable pub sync :
    Time → (ℕ → String) → List Declared → Db → Result (List (String × String)) × Db
unfolding sync_each
sync now mint declared db = sync_each now db.heartbeats mint declared db
