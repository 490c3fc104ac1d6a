-- ===== src/Examples/Settings.antt =====
-- A text with variables, and a clock with two waiters.
use kerberon.Base.{◌==◌, ◌≡◌, refl, ◌&&◌, Option, none, some, List, [], ◌∷◌, if◌then◌else◌, arith}
use kerberon.Base.Bytes.{Bytes}
use kerberon.Config.Expand.{expand_string, is_var_char, valid_var_name}
use kerberon.Config.Pieces.{
  Piece, literal, escaped, braced, bare, ArePieces, write_all, expand_string-pieces,
}
use kerberon.Clock.{Waiter, FakeClock, advance}
use kerberon.Clock.Ticks.{IsWound, Ticks, IsAtRest, advance_delivers}

-- ─── Variables ───

-- `HOST` is set to `db`, and nothing else.
abbrev lookup_env : Bytes → Option Bytes
lookup_env (h ∷ o ∷ s ∷ t ∷ []) =
    if h == 72 && (o == 79 && (s == 83 && t == 84)) then some (100 ∷ 98 ∷ []) else none
lookup_env _ = none

-- The text `a$$${HOST}:$PW.`
abbrev pieces : List Piece
pieces =
    literal (97 ∷ [])
    ∷ escaped
    ∷ braced (72 ∷ 79 ∷ 83 ∷ 84 ∷ [])
    ∷ literal (58 ∷ [])
    ∷ bare (80 ∷ 87 ∷ [])
    ∷ literal (46 ∷ [])
    ∷ []

spelled : ArePieces pieces
unfolding valid_var_name is_var_char
spelled = (refl, (tt, (refl, (refl, ((refl, refl), (refl, tt))))))

expand_string-pieces_example :
    expand_string lookup_env (write_all pieces)
    ≡ (97 ∷ 36 ∷ 100 ∷ 98 ∷ 58 ∷ 46 ∷ [], (80 ∷ 87 ∷ []) ∷ [])
expand_string-pieces_example = expand_string-pieces lookup_env pieces spelled

-- ─── A timer and a ticker ───

abbrev timer : Waiter
timer = record { id = 0; ch = none; deadline = 15; period = 0 }

abbrev ticker : Waiter
ticker = record { id = 1; ch = none; deadline = 12; period = 2 }

abbrev fake : FakeClock
fake = record { now = 10; waiters = timer ∷ ticker ∷ []; released = [] }

fake-IsWound : IsWound fake
fake-IsWound = record { distinct = (refl, (refl, tt)); ahead = (omega arith, (omega arith, tt)) }

advance_delivers_example :
    (f' : FakeClock) × (advance 6 fake ≡ some f') × Ticks 16 fake f' × IsAtRest 16 f'
advance_delivers_example = advance_delivers 6 fake fake-IsWound
