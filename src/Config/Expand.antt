-- ===== src/Config/Expand.antt =====
-- internal/config/expand.go: variables of the environment in the texts of the configuration, over bytes.
-- What `os.LookupEnv` answers is a parameter. The walk over the document calls `expand_string` at each
-- scalar.
use kerberon.Base.{
  ℕ, zero, suc, ◌+◌, ◌-◌, ◌==◌, Bool, true, false, ◌&&◌, ◌||◌, not, Option, none, some, List, [],
  ◌∷◌, ◌++◌, any, take, drop, leb, if◌then◌else◌,
}
use kerberon.Base.Bytes.{Bytes}

abbrev pub dollar : ℕ
dollar = 36

abbrev pub open_brace : ℕ
open_brace = 123

abbrev pub close_brace : ℕ
close_brace = 125

abbrev between : ℕ → ℕ → ℕ → Bool
between lo hi c = leb lo c && leb c hi

-- A letter, an underscore, or a digit that does not come first.
unfoldable pub is_var_char : ℕ → Bool → Bool
is_var_char c first =
    if between 97 122 c || (between 65 90 c || c == 95)
    then true
    else if between 48 57 c
    then not first
    else false

unfoldable pub all_var_chars : Bool → Bytes → Bool
unfolding is_var_char
all_var_chars first [] = true
all_var_chars first (c ∷ name) = is_var_char c first && all_var_chars false name

unfoldable pub valid_var_name : Bytes → Bool
unfolding all_var_chars
valid_var_name [] = false
valid_var_name (c ∷ name) = all_var_chars true (c ∷ name)

-- How many bytes at the start may belong to a name.
unfoldable pub name_width : Bool → Bytes → ℕ
unfolding is_var_char
name_width first [] = 0
name_width first (c ∷ s) =
    let rest = name_width false s in if is_var_char c first then suc rest else 0

unfoldable pub index_byte : ℕ → Bytes → Option ℕ
index_byte b [] = none
index_byte b (c ∷ s) =
    let rest = index_byte b s in
    if c == b then some 0 else elim rest [ none ↦ none | some i ↦ some (suc i) ]

abbrev braced_ref : Bytes → Option ℕ → Option (Bytes × ℕ)
braced_ref s none = none
braced_ref s (some end) =
    let name = drop 2 (take end s) in if valid_var_name name then some (name, end + 1) else none

abbrev bare_ref : Bytes → ℕ → Option (Bytes × ℕ)
bare_ref s zero = none
bare_ref s (suc n) = some (take (suc n) s, suc (suc n))

-- The name that is referred to at the start of a text, and how many bytes the reference takes.
unfoldable pub parse_var_ref : Bytes → Option (Bytes × ℕ)
unfolding valid_var_name name_width index_byte
parse_var_ref [] = none
parse_var_ref (c ∷ []) = none
parse_var_ref (c ∷ d ∷ s) =
    if not (c == dollar)
    then none
    else if d == open_brace
    then braced_ref (c ∷ d ∷ s) (index_byte close_brace (c ∷ d ∷ s))
    else bare_ref (d ∷ s) (name_width true (d ∷ s))

abbrev pub emit : Bytes → Bytes × List Bytes → Bytes × List Bytes
emit s (out, missing) = (s ++ out, missing)

module _ (lookup_env : Bytes → Option Bytes) where
  -- What a name stands for, and the name where it is not set.
  abbrev pub substitute : Bytes → Option Bytes → Bytes × List Bytes → Bytes × List Bytes
  substitute name none (out, missing) = (out, name ∷ missing)
  substitute name (some value) (out, missing) = (value ++ out, missing)

  -- The loop; `skip` counts the bytes ahead that are part of what has been read.
  unfoldable pub expand_from : ℕ → Bytes → Bytes × List Bytes
  unfolding parse_var_ref
  expand_from skip [] = ([], [])
  expand_from (suc skip) (c ∷ s) = expand_from skip s
  expand_from zero (c ∷ []) = (c ∷ [], [])
  expand_from zero (c ∷ d ∷ s) =
      let next = expand_from 0 (d ∷ s) in
      let after_two = expand_from 1 (d ∷ s) in
      if not (c == dollar)
      then emit (c ∷ []) next
      else if d == dollar
      then emit (dollar ∷ []) after_two
      else elim (parse_var_ref (c ∷ d ∷ s)) [
        | none ↦ emit (dollar ∷ []) next
        | some (name, width) ↦ substitute name (lookup_env name) (expand_from (width - 1) (d ∷ s))
      ]

  unfoldable pub expand_string : Bytes → Bytes × List Bytes
  unfolding expand_from
  expand_string s = if not (any (λ c. c == dollar) s) then (s, []) else expand_from 0 s
