-- ===== src/Schedule/ClockText.antt =====
-- The texts of internal/schedule/schedule.go: a time of day and the name of a day.
use Prim.Native.Char.{Char, code}
use kerberon.Base.{
  ℕ, ◌+◌, ◌-◌, ◌*◌, ◌==◌, String, str_eq, Bool, ◌&&◌, Option, none, some, if◌then◌else◌, ltb, leb,
}
use kerberon.Alert.Text.{to_lower}

abbrev digit? : Char → Option ℕ
digit? c = if leb 48 (code c) && leb (code c) 57 then some (code c - 48) else none

-- Two digits below sixty, and nothing after them.
abbrev minutes : ℕ → String → Option (ℕ × ℕ)
minutes h (String.◌∷◌ c (String.◌∷◌ d String.[])) = elim (digit? c) [
  | none ↦ none
  | some a ↦ elim (digit? d) [
    | none ↦ none
    | some b ↦ if ltb (a * 10 + b) 60 then some (h, a * 10 + b) else none
  ]
]
minutes h _ = none

abbrev colon : ℕ → String → Option (ℕ × ℕ)
colon h (String.◌∷◌ c rest) = if code c == 58 && ltb h 24 then minutes h rest else none
colon h _ = none

-- `time.Parse` with the layout "15:04": the hour has one digit or two.
unfoldable pub parse_hhmm : String → Option (ℕ × ℕ)
parse_hhmm String.[] = none
parse_hhmm (String.◌∷◌ c String.[]) = none
parse_hhmm (String.◌∷◌ c (String.◌∷◌ d rest)) = elim (digit? c) [
  | none ↦ none
  | some a ↦ elim (digit? d) [
    | none ↦ colon a (String.◌∷◌ d rest)
    | some b ↦ colon (a * 10 + b) rest
  ]
]

abbrev equal_fold : String → String → Bool
equal_fold a b = str_eq (to_lower a) (to_lower b)

-- The days from Sunday, 0, to Saturday.
unfoldable pub parse_weekday : String → Option ℕ
unfolding to_lower
parse_weekday s =
    if equal_fold "Sunday" s
    then some 0
    else if equal_fold "Monday" s
    then some 1
    else if equal_fold "Tuesday" s
    then some 2
    else if equal_fold "Wednesday" s
    then some 3
    else if equal_fold "Thursday" s
    then some 4
    else if equal_fold "Friday" s
    then some 5
    else if equal_fold "Saturday" s
    then some 6
    else none
