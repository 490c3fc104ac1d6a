-- ===== src/Alert/Normalize.antt =====
-- internal/alert/normalize.go: from a decoded webhook to alerts. JSON stands as the value that it encodes,
-- and `none` for a body that does not decode; a map is the list of its entries. What `time.Parse` makes of a
-- text in RFC 3339 is a parameter: the instant, and the year as it is written. `none` is an error.
use kerberon.Base.{
  ℕ, ◌==◌, String, str_eq, Option, none, some, List, [], ◌∷◌, any, map, length, ltb, leb,
  if◌then◌else◌,
}
use kerberon.Core.Time.{Time}
use kerberon.Core.Enums.{Source, AlertStatus, firing, alert_status_valid}
use kerberon.Core.Records.{Alert, Labels}
use kerberon.Alert.Text.{to_lower, trim_space}

abbrev pub max_alerts : ℕ
max_alerts = 5000

-- One alert of Alertmanager's payload, with the fields that are read.
pub record RawAlert : Type 0 where
  pub status : String
  pub labels : Labels
  pub annotations : Labels
  pub starts_at : String
  pub ends_at : String
  pub generator_url : String

pub record AlertmanagerPayload : Type 0 where
  pub status : String
  pub common_labels : Labels
  pub common_annotations : Labels
  pub alerts : List RawAlert

-- The fields of a generic payload that are read of an alert.
pub record GenericAlert : Type 0 where
  pub status : String
  pub labels : Labels
  pub annotations : Labels
  pub starts_at : String
  pub ends_at : String

-- A payload is an alert itself and a list of alerts; a list within the list is never read.
pub record GenericPayload : Type 0 where
  pub own : GenericAlert
  pub alerts : List GenericAlert

-- ─── Helpers ───

-- An assignment to a key of a map.
unfoldable pub put : String → String → Labels → Labels
put k v [] = (k, v) ∷ []
put k v ((j, w) ∷ m) = let rest = put k v m in if str_eq j k then (k, v) ∷ m else (j, w) ∷ rest

-- The entries of the second map win.
unfoldable pub merge : Labels → Labels → Labels
unfolding put
merge out [] = out
merge out ((k, v) ∷ m) = merge (put k v out) m

-- An assignment that leaves a key that is there.
unfoldable pub with_key : Labels → String → String → Labels
with_key m k v =
    let assigned = put k v m in
    if any (λ (p : String × String). str_eq p.0 k) m then m else assigned

-- `core.AlertStatus` of a text.
unfoldable pub alert_status_of : String → AlertStatus
alert_status_of s =
    if str_eq s "firing"
    then firing
    else if str_eq s "resolved"
    then AlertStatus.resolved
    else AlertStatus.other s

-- A status that is valid; the text that it comes from is in lower case.
abbrev valid_status : String → Option AlertStatus
valid_status s = if alert_status_valid (alert_status_of s) then some (alert_status_of s) else none

abbrev add_first : Option Alert → Option (List Alert) → Option (List Alert)
add_first (some a) (some alerts) = some (a ∷ alerts)
add_first _ _ = none

-- The loop: the first alert that is refused refuses them all.
unfoldable pub parse_each {ℓ} : {A : Type ℓ} → (A → Option Alert) → List A → Option (List Alert)
parse_each f [] = some []
parse_each f (raw ∷ raws) = add_first (f raw) (parse_each f raws)

abbrev within_limit : ℕ → Option (List Alert) → Option (List Alert)
within_limit n alerts = if ltb max_alerts n then none else alerts

module _ (parse_rfc3339 : String → Option (Time × ℕ)) (received_at : Time) where
  abbrev instant : Option (Time × ℕ) → Option Time
  instant none = none
  instant (some (t, year)) = some t

  unfoldable pub parse_time : String → Option Time
  unfolding trim_space
  parse_time s =
      let s' = trim_space s in if str_eq s' "" then some received_at else instant (parse_rfc3339 s')

  -- The year 1 and any before it stand for no time.
  abbrev ended : Option (Time × ℕ) → Option (Option Time)
  ended none = none
  ended (some (t, year)) = if leb year 1 then some none else some (some t)

  unfoldable pub parse_optional_time : String → Option (Option Time)
  unfolding trim_space
  parse_optional_time s =
      let s' = trim_space s in if str_eq s' "" then some none else ended (parse_rfc3339 s')

  abbrev new_alert : Source → AlertStatus → Labels → Labels → Time → Option Time → Alert
  new_alert source status labels annotations starts_at ends_at = record {
    id = 0;
    fingerprint = "";
    source = source;
    status = status;
    labels = labels;
    annotations = annotations;
    starts_at = starts_at;
    ends_at = ends_at;
    received_at = received_at;
    incident_id = none;
  }

  abbrev with_times :
      (Time → Option Time → Alert) → Option Time → Option (Option Time) → Option Alert
  with_times make (some starts) (some ends) = some (make starts ends)
  with_times make _ _ = none

  abbrev with_generator : Labels → String → Labels
  with_generator m url = if str_eq url "" then m else with_key m "generator_url" url

  -- One round of the loop of `ParseAlertmanager`.
  unfoldable pub parse_alert : AlertmanagerPayload → RawAlert → Option Alert
  unfolding merge with_key to_lower alert_status_of parse_time parse_optional_time
  parse_alert p raw =
      let own = to_lower raw.status in
      elim (valid_status (if str_eq own "" then to_lower p.status else own)) [
        | none ↦ none
        | some status ↦
            with_times
              (new_alert Source.alertmanager status (merge (merge [] p.common_labels) raw.labels) (
                with_generator (merge (merge [] p.common_annotations) raw.annotations)
                  raw.generator_url))
              (parse_time raw.starts_at) (parse_optional_time raw.ends_at)
      ]

  -- One round of the loop of `ParseGeneric`. A status that is left out means firing.
  unfoldable pub parse_generic_alert : GenericAlert → Option Alert
  unfolding trim_space to_lower alert_status_of parse_time parse_optional_time
  parse_generic_alert raw =
      let own = to_lower (trim_space raw.status) in
      if length raw.labels == 0
      then none
      else elim (valid_status (if str_eq own "" then "firing" else own)) [
        | none ↦ none
        | some status ↦
            with_times (new_alert Source.generic status raw.labels raw.annotations)
              (parse_time raw.starts_at) (parse_optional_time raw.ends_at)
      ]

  unfoldable pub parse_alertmanager : Option AlertmanagerPayload → Option (List Alert)
  unfolding parse_alert parse_each
  parse_alertmanager none = none
  parse_alertmanager (some p) =
      if length p.alerts == 0
      then none
      else within_limit (length p.alerts) (parse_each (parse_alert p) p.alerts)

  abbrev from_grafana : Alert → Alert
  from_grafana a = record a { source = Source.grafana }

  abbrev all_from_grafana : Option (List Alert) → Option (List Alert)
  all_from_grafana none = none
  all_from_grafana (some alerts) = some (map from_grafana alerts)

  -- The same shape, recorded with its own source.
  unfoldable pub parse_grafana : Option AlertmanagerPayload → Option (List Alert)
  unfolding parse_alertmanager
  parse_grafana p = all_from_grafana (parse_alertmanager p)

  abbrev given : GenericPayload → List GenericAlert
  given p = elim p.alerts [ [] ↦ p.own ∷ [] | a ∷ as' ↦ a ∷ as' ]

  unfoldable pub parse_generic : Option GenericPayload → Option (List Alert)
  unfolding parse_generic_alert parse_each
  parse_generic none = none
  parse_generic (some p) =
      within_limit (length (given p)) (parse_each parse_generic_alert (given p))
