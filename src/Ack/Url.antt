-- ===== src/Ack/Url.antt =====
-- What the links of internal/ack/ack.go take from Go's libraries, on bytes: `url.PathEscape` and
-- `url.PathUnescape`, `fmt`'s %d and `strconv.ParseInt` in base ten, `strings.Split` and `strings.Trim`.
use kerberon.Base.{
  ℕ, zero, suc, ◌+◌, ◌-◌, ◌*◌, ◌/◌, ◌%◌, ◌==◌, Bool, ◌&&◌, ◌||◌, Option, none, some, List, [], ◌∷◌,
  ◌++◌, if◌then◌else◌, leb, ltb,
}
use kerberon.Base.Bytes.{Bytes}

abbrev pub slash : ℕ
slash = 47

-- A byte that stands for itself in a segment of a path: letters, digits, and -_.~$&+=:@
abbrev pub plain : ℕ → Bool
plain c =
    (leb 97 c && leb c 122)
    || ((leb 65 c && leb c 90)
        || ((leb 48 c && leb c 57)
            || (c == 45
                || (c == 95
                    || (c == 46
                        || (c == 126
                            || (c == 36
                                || (c == 38
                                    || (c == 43 || (c == 61 || (c == 58 || c == 64)))))))))))

-- A digit of base sixteen, in upper case.
abbrev pub hex : ℕ → ℕ
hex d = if ltb d 10 then 48 + d else 55 + d

abbrev pub escape_byte : ℕ → Bytes → Bytes
escape_byte c rest = if plain c then c ∷ rest else 37 ∷ hex (c / 16) ∷ hex (c % 16) ∷ rest

unfoldable pub path_escape : Bytes → Bytes
path_escape [] = []
path_escape (c ∷ s) = escape_byte c (path_escape s)

abbrev pub unhex : ℕ → Option ℕ
unhex c =
    if leb 48 c && leb c 57
    then some (c - 48)
    else if leb 97 c && leb c 102
    then some (c - 87)
    else if leb 65 c && leb c 70
    then some (c - 55)
    else none

abbrev pub join : Option ℕ → Option ℕ → Option Bytes → Option Bytes
join (some h) (some l) (some rest) = some ((h * 16 + l) ∷ rest)
join _ _ _ = none

abbrev pub put : ℕ → Option Bytes → Option Bytes
put c (some rest) = some (c ∷ rest)
put c none = none

-- A percent sign without two digits after it is an error.
unfoldable pub path_unescape : Bytes → Option Bytes
path_unescape [] = some []
path_unescape (c ∷ []) = if c == 37 then none else some (c ∷ [])
path_unescape (c ∷ d ∷ []) =
    let rest = path_unescape (d ∷ []) in if c == 37 then none else put c rest
path_unescape (c ∷ d ∷ e ∷ s) =
    let skipped = path_unescape s in
    let rest = path_unescape (d ∷ e ∷ s) in
    if c == 37 then join (unhex d) (unhex e) skipped else put c rest

-- At most `fuel` digits: twenty are enough for a number of 64 bits.
unfoldable pub digits : ℕ → ℕ → Bytes
digits zero n = []
digits (suc fuel) n =
    let high = digits fuel (n / 10) in
    if ltb n 10 then (48 + n) ∷ [] else high ++ (48 + n % 10) ∷ []

unfoldable pub decimal : ℕ → Bytes
unfolding digits
decimal n = digits 20 n

abbrev pub is_digit : ℕ → Bool
is_digit c = leb 48 c && leb c 57

unfoldable pub parse_digits : ℕ → Bytes → Option ℕ
parse_digits acc [] = some acc
parse_digits acc (c ∷ s) =
    let rest = parse_digits (acc * 10 + (c - 48)) s in if is_digit c then rest else none

-- Digits, at least one, below 2^63.
unfoldable pub parse_unsigned : Bytes → Option ℕ
unfolding parse_digits
parse_unsigned [] = none
parse_unsigned (c ∷ s) = elim (parse_digits 0 (c ∷ s)) [
  | none ↦ none
  | some n ↦ if ltb n 9223372036854775808 then some n else none
]

-- `ParseInt` where the caller takes a positive number only: a plus sign may stand first, and all that
-- begins with a minus sign is an error or not positive.
unfoldable pub parse_positive : Bytes → Option ℕ
unfolding parse_unsigned
parse_positive [] = none
parse_positive (c ∷ s) = elim (if c == 43 then parse_unsigned s else parse_unsigned (c ∷ s)) [
  | none ↦ none
  | some n ↦ if n == 0 then none else some n
]

abbrev pub push : ℕ → List Bytes → List Bytes
push c [] = (c ∷ []) ∷ []
push c (part ∷ parts) = (c ∷ part) ∷ parts

-- The parts between the slashes, at least one.
unfoldable pub split_slash : Bytes → List Bytes
split_slash [] = [] ∷ []
split_slash (c ∷ s) = let parts = split_slash s in if c == slash then [] ∷ parts else push c parts

unfoldable pub trim_left : Bytes → Bytes
trim_left [] = []
trim_left (c ∷ s) = if c == slash then trim_left s else c ∷ s

unfoldable pub trim_right : Bytes → Bytes
trim_right [] = []
trim_right (c ∷ s) = elim (trim_right s) [
  | [] ↦ if c == slash then [] else c ∷ []
  | d ∷ rest ↦ c ∷ d ∷ rest
]

unfoldable pub trim : Bytes → Bytes
unfolding trim_left trim_right
trim s = trim_right (trim_left s)
