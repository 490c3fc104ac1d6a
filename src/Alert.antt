-- ===== src/Alert.antt =====
-- internal/alert/alert.go: the identity of an alert, of its group, and the title and severity of the
-- incident that it opens. SHA-256 with its hexadecimal print is the parameter `hash`, over the text
-- that the code feeds to it.
pub mod Text
pub mod Normalize
pub mod Identity
pub mod Order
pub mod Shuffle
use Text.{to_lower, trim_space, truncate, contains_text}
use Prim.Native.Char.{nul}
use Prim.Native.String.{◌++◌, compare}
use text.Mathlib.Text.{is_le}
use kerberon.Base.{
  ℕ, String, str_eq, Bool, true, false, not, Option, none, some, List, [], ◌∷◌, map, filter,
  if◌then◌else◌,
}
use kerberon.Base.Sort.{sort}
use kerberon.Core.Enums.{Severity, critical, warning, info}
use kerberon.Core.Records.{Alert, Labels}

abbrev pub default_volatile_labels : List String
default_volatile_labels =
    "timestamp" ∷ "value" ∷ "instance_id" ∷ "pod" ∷ "container_id" ∷ "trace_id" ∷ []

-- A read of a Go map: a missing key gives the empty text.
abbrev pub get : String → Labels → String
get k [] = ""
get k ((j, v) ∷ rest) = if str_eq j k then v else get k rest

abbrev pub terminator : String
terminator = String.◌∷◌ nul ""

-- What is hashed for one label.
abbrev pub pair : String × String → String
pair (k, v) = k ++ "=" ++ v ++ terminator

abbrev pub pairs : List (String × String) → String
pairs [] = ""
pairs (p ∷ rest) = pair p ++ pairs rest

abbrev pub key_le : String × String → String × String → Bool
key_le (j, _) (k, _) = is_le (compare j k)

abbrev pub text_le : String → String → Bool
text_le a b = is_le (compare a b)

-- A label whose name is in the volatile list, whatever the case of its letters.
unfoldable pub is_volatile : List String → String → Bool
unfolding to_lower contains_text
is_volatile volatile k = contains_text (to_lower k) (map to_lower volatile)

unfoldable pub canonical_labels : List String → Labels → String
canonical_labels volatile labels =
    pairs (sort key_le (filter (λ p. not (is_volatile volatile p.0)) labels))

unfoldable pub group_text : String → List String → Labels → String
group_text route_name group_by labels =
    route_name ++ terminator ++ pairs (map (λ k. (k, get k labels)) (sort text_le group_by))

module _ (hash : String → String) where
  unfoldable pub fingerprint : Labels → List String → String
  unfolding canonical_labels
  fingerprint labels volatile = hash (canonical_labels volatile labels)

  unfoldable pub group_key : String → List String → Labels → String
  unfolding group_text
  group_key route_name group_by labels = hash (group_text route_name group_by labels)

-- The first of the keys with something to say, cut to 200 bytes.
abbrev first_text : List String → Labels → Option String
first_text [] labels = none
first_text (k ∷ keys) labels =
    let v = trim_space (get k labels) in
    let rest = first_text keys labels in if str_eq v "" then rest else some (truncate v 200)

unfoldable pub title : Alert → String
unfolding trim_space truncate
title a = elim (first_text ("summary" ∷ "title" ∷ "description" ∷ []) a.annotations) [
  | some v ↦ v
  | none ↦ elim (first_text ("alertname" ∷ []) a.labels) [ some v ↦ v | none ↦ "Alert" ]
]

-- The three names of the type, and the synonyms.
unfoldable pub severity_of : String → Option Severity
unfolding contains_text
severity_of v =
    if str_eq v "critical"
    then some critical
    else if str_eq v "warning"
    then some warning
    else if str_eq v "info"
    then some info
    else if contains_text v ("error" ∷ "fatal" ∷ "page" ∷ "p1" ∷ "high" ∷ [])
    then some critical
    else if contains_text v ("warn" ∷ "p2" ∷ "medium" ∷ [])
    then some warning
    else if contains_text v ("notice" ∷ "debug" ∷ "p3" ∷ "low" ∷ [])
    then some info
    else none

abbrev first_severity : List String → Labels → Severity
first_severity [] labels = critical
first_severity (k ∷ keys) labels =
    let rest = first_severity keys labels in
    elim (severity_of (to_lower (trim_space (get k labels)))) [ some s ↦ s | none ↦ rest ]

unfoldable pub severity : Labels → Severity
unfolding severity_of to_lower trim_space
severity labels = first_severity ("severity" ∷ "priority" ∷ "level" ∷ []) labels
