-- ===== src/Core/Time.antt =====
-- Instants and durations. A `time.Time` is a number of nanoseconds since its zero value, the first
-- of January of the year 1 in UTC, so `IsZero` is a test for 0. A duration is a number of
-- nanoseconds; the program uses no negative one but as an argument that its `withDefaults` replace,
-- and 0 takes that place. A column of the database is a number of seconds from the same origin: the
-- constant by which Unix time differs drops out of every comparison.
use kerberon.Base.{ℕ, ◌+◌, ◌*◌, ◌/◌, ◌≤◌, ◌<◌, ◌≡◌, Option, none, some, arith}

abbrev pub Time : Type 0
Time = ℕ

abbrev pub Duration : Type 0
Duration = ℕ

abbrev pub second : Duration
second = 1000000000

abbrev pub minute : Duration
minute = 60 * second

-- toUnix and fromUnix of internal/store/timers.go.
abbrev pub to_unix : Time → ℕ
to_unix t = t / second

abbrev pub from_unix : ℕ → Time
from_unix v = v * second

-- What a column gives back for an instant written to it.
abbrev pub stored : Time → Time
stored t = from_unix (to_unix t)

abbrev pub stored_opt : Option Time → Option Time
stored_opt none = none
stored_opt (some t) = some (stored t)

-- A stored instant is at most a second early, and storing it again changes nothing.
pub stored_bounds : (t : Time) → (stored t ≤ t) × (t < stored t + second)
stored_bounds t = omega arith

pub stored_idem : (t : Time) → stored (stored t) ≡ stored t
stored_idem t = omega arith
