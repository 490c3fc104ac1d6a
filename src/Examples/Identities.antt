-- ===== src/Examples/Identities.antt =====
-- Two readings of one map of labels, the key of a page, and a link.
use mathlib.Core.List.Perm
use kerberon.Base.{arith, ℕ, String, str_eq, ◌≡◌, refl, [], ◌∷◌, if◌then◌else◌}
use kerberon.Base.Bytes.{Bytes}
use kerberon.Store.Key.{key_text_injective}
use kerberon.Base.{some, none, ◌++◌}
use kerberon.Ack.Url.{slash, decimal}
use kerberon.Ack.Link.{ack_word, link_path, parse_link_path}
use kerberon.Ack.Roundtrip.{parse_link_path-link_path, decoded_slash_is_malformed}
use kerberon.Core.Records.{Labels}
use kerberon.Alert.{fingerprint, group_key}
use kerberon.Alert.Shuffle.{identity_ignores_order}

abbrev value_of : String → String
value_of k = if str_eq k "team" then "db" else if str_eq k "disk" then "full" else ""

abbrev read_once : Labels
read_once = ("team", "db") ∷ ("disk", "full") ∷ ("pod", "") ∷ []

abbrev read_again : Labels
read_again = ("disk", "full") ∷ ("team", "db") ∷ ("pod", "") ∷ []

identity_ignores_order_example :
    (fingerprint (λ s. s) read_once ("pod" ∷ []) ≡ fingerprint (λ s. s) read_again ("pod" ∷ []))
    × (group_key (λ s. s) "ops" ("team" ∷ "disk" ∷ []) read_once
        ≡ group_key (λ s. s) "ops" ("disk" ∷ "team" ∷ []) read_again)
identity_ignores_order_example =
    identity_ignores_order (λ s. s) ("pod" ∷ []) "ops" value_of read_once read_again
      ("team" ∷ "disk" ∷ []) ("disk" ∷ "team" ∷ []) (refl, (refl, (refl, tt)))
      (Perm.swap ("disk", "full") ("team", "db") (("pod", "") ∷ [])) (Perm.swap "disk" "team" [])

-- The bytes of "ann" and of "ntfy".
abbrev ann : Bytes
ann = 97 ∷ 110 ∷ 110 ∷ []

abbrev by_ntfy : Bytes
by_ntfy = 110 ∷ 116 ∷ 102 ∷ 121 ∷ []

key_text_injective_example :
    (◌≡◌ {A = ℕ} 7 7) × (◌≡◌ {A = ℕ} 1 1) × (ann ≡ ann) × (by_ntfy ≡ by_ntfy) × (◌≡◌ {A = ℕ} 2 2)
key_text_injective_example =
    key_text_injective 7 7 1 1 ann ann by_ntfy by_ntfy 2 2 (omega arith) (omega arith) (omega arith)
      (omega arith) (omega arith) (omega arith) (omega arith) (omega arith) (omega arith)
      (omega arith) refl

-- The bytes of "a/b" and of "tok".
abbrev slashed : Bytes
slashed = 97 ∷ 47 ∷ 98 ∷ []

abbrev tok : Bytes
tok = 116 ∷ 111 ∷ 107 ∷ []

parse_link_path-link_path_example :
    parse_link_path (link_path 42 slashed tok)
    ≡ some (record { incident_id = 42; user_id = slashed; token = tok })
parse_link_path-link_path_example =
    parse_link_path-link_path 42 slashed tok (omega arith) (omega arith)
      (omega arith, (omega arith, (omega arith, tt))) refl (refl, (refl, (refl, tt))) refl

decoded_slash_is_malformed_example :
    parse_link_path (
      slash
      ∷ (ack_word
          ++ slash ∷ (decimal 42 ++ slash ∷ ((97 ∷ []) ++ slash ∷ ((98 ∷ []) ++ slash ∷ tok)))))
    ≡ none
decoded_slash_is_malformed_example =
    decoded_slash_is_malformed 42 (97 ∷ []) (98 ∷ []) tok (refl, (refl, (refl, tt))) refl
