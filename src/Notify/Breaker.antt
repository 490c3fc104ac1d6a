-- ===== src/Notify/Breaker.antt =====
-- internal/notify/breaker.go: a channel is taken out of service after repeated failures. The mutex is
-- left out, since each method holds it throughout; the clock's reading is an argument.
use kerberon.Base.{ℕ, suc, ◌+◌, ◌==◌, Bool, true, false, Option, none, some, if◌then◌else◌, leb}
use kerberon.Core.Time.{Time, Duration, minute}
use kerberon.Core.Enums.{Channel, channel_eq}

-- `open_until` is 0, the zero instant, while the breaker is closed.
pub record BreakerState : Type 0 where
  pub consecutive_failures : ℕ
  pub open_until : Time

pub record Breaker : Type 0 where
  pub threshold : ℕ
  pub cooldown : Duration
  pub state : Channel → Option BreakerState

pub record BreakerOptions : Type 0 where
  pub threshold : ℕ
  pub cooldown : Duration

unfoldable pub new_breaker : BreakerOptions → Breaker
new_breaker o = record {
  threshold = if o.threshold == 0 then 5 else o.threshold;
  cooldown = if o.cooldown == 0 then minute else o.cooldown;
  state = λ ch. none;
}

unfoldable pub allow : Time → Channel → Breaker → Bool
allow now ch b = elim (b.state ch) [
  | none ↦ true
  | some st ↦ if st.open_until == 0 then true else leb st.open_until now
]

abbrev pub set_state : Channel → Option BreakerState → Breaker → Breaker
set_state ch st b = record b { state = λ c. if channel_eq c ch then st else b.state c }

unfoldable pub succeed : Channel → Breaker → Breaker
succeed ch b = set_state ch none b

abbrev pub or_fresh : Option BreakerState → BreakerState
or_fresh none = record { consecutive_failures = 0; open_until = 0 }
or_fresh (some st) = st

-- The breaker after a failure, and whether that opened it.
unfoldable pub record_failure : Time → Channel → Breaker → Breaker × Bool
record_failure now ch b =
    let st = or_fresh (b.state ch) in
    let n = suc st.consecutive_failures in
    if leb b.threshold n
    then (
      set_state ch (some (record { consecutive_failures = n; open_until = now + b.cooldown })) b,
      true,
    )
    else (
      set_state ch (some (record { consecutive_failures = n; open_until = st.open_until })) b,
      false,
    )

unfoldable pub failures : Channel → Breaker → ℕ
failures ch b = elim (b.state ch) [ none ↦ 0 | some st ↦ st.consecutive_failures ]
