-- ===== src/Alert/Text.antt =====
-- What the packages alert and route use of Go's `strings`, on ASCII letters and spaces: a letter or a
-- space outside of ASCII is left as it is.
use Prim.Native.Char.{Char, code}
use Prim.Native.String.{len, slice, char_at, ◌++◌}
use kerberon.Base.{
  ℕ, ◌-◌, ◌==◌, leb, String, str_eq, Bool, ◌&&◌, ◌||◌, List, if◌then◌else◌, any, ◌≡◌, refl,
}

abbrev lower_char : Char → Char
lower_char c =
    if leb b'A' (code c) && leb (code c) b'Z'
    then char_at "abcdefghijklmnopqrstuvwxyz" (code c - b'A')
    else c

-- strings.ToLower
unfoldable pub to_lower : String → String
to_lower String.[] = ""
to_lower (String.◌∷◌ c s) = String.◌∷◌ (lower_char c) (to_lower s)

abbrev is_space : Char → Bool
is_space c = code c == 32 || leb 9 (code c) && leb (code c) 13

trim_left : String → String
trim_left String.[] = ""
trim_left (String.◌∷◌ c s) = if is_space c then trim_left s else String.◌∷◌ c s

trim_right : String → String
trim_right String.[] = ""
trim_right (String.◌∷◌ c s) =
    let rest = trim_right s in if is_space c && str_eq rest "" then "" else String.◌∷◌ c rest

-- strings.TrimSpace
unfoldable pub trim_space : String → String
unfolding trim_left trim_right
trim_space s = trim_right (trim_left s)

-- `truncate`: at most n bytes, cut where a character begins, and marked. `slice` takes whole characters
-- only, which is what the loop down to the start of a rune finds.
unfoldable pub truncate : String → ℕ → String
unfolding trim_space
truncate s n = if leb (len s) n then s else trim_space (slice s 0 n) ++ "..."

unfoldable pub contains_text : String → List String → Bool
contains_text s texts = any (str_eq s) texts

lowered : to_lower "Volatile-POD" ≡ "volatile-pod"
unfolding to_lower
lowered = refl

trimmed : trim_space "  a b " ≡ "a b"
unfolding trim_space
trimmed = refl
