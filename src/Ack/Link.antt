-- ===== src/Ack/Link.antt =====
-- The links of internal/ack/ack.go: `Link` and `ParseLinkPath`. A text is the list of its bytes.
use kerberon.Base.{
  ℕ, Bool, true, false, Option, none, some, List, [], ◌∷◌, ◌++◌, if◌then◌else◌, ◌||◌,
}
use kerberon.Base.Bytes.{Bytes}
use kerberon.Ack.{token, bytes_eq}
use kerberon.Ack.Url.{
  slash, path_escape, path_unescape, decimal, parse_positive, split_slash, trim, trim_right,
}

abbrev pub ack_word : Bytes
ack_word = 97 ∷ 99 ∷ 107 ∷ []

-- The path of a link, from the first slash on.
unfoldable pub link_path : ℕ → Bytes → Bytes → Bytes
link_path incident_id user tok =
    slash ∷ (ack_word ++ slash ∷ (decimal incident_id ++ slash ∷ (path_escape user ++ slash ∷ tok)))

unfoldable pub link : (Bytes → Bytes) → Bytes → ℕ → Bytes → ℕ → Bytes
link sign external_url incident_id user step =
    trim_right external_url ++ link_path incident_id user (token sign incident_id user step)

pub record Parsed : Type 0 where
  pub incident_id : ℕ
  pub user_id : Bytes
  pub token : Bytes

abbrev pub is_empty : Bytes → Bool
is_empty [] = true
is_empty _ = false

abbrev pub parsed : Option ℕ → Option Bytes → Bytes → Option Parsed
parsed (some id) (some user) tok =
    if is_empty user || is_empty tok
    then none
    else some (record { incident_id = id; user_id = user; token = tok })
parsed _ _ tok = none

-- The four parts, where there are four and the first is the word.
abbrev pub parse_parts : List Bytes → Option Parsed
parse_parts (word ∷ id ∷ user ∷ tok ∷ []) =
    if bytes_eq word ack_word then parsed (parse_positive id) (path_unescape user) tok else none
parse_parts _ = none

-- `none` is the error of a malformed link.
unfoldable pub parse_link_path : Bytes → Option Parsed
parse_link_path path = parse_parts (split_slash (trim path))
