-- ===== src/Notify/Trips.antt =====
-- When a breaker opens, for how long, and for whom (internal/notify/breaker.go).
use kerberon.Base.{
  suc, ◌+◌, ◌==◌, ◌<◌, ◌≡◌, refl, ap, ◌∙◌, Bool-cases, inl, inr, Bool, true, false, Option, none,
  some, List, [], ◌∷◌, if◌then◌else◌, leb, length, arith,
}
use kerberon.Core.Time.{Time}
use kerberon.Core.Enums.{Channel, channel_eq, channel_eq_refl}
use kerberon.Notify.Breaker.{BreakerState, Breaker, allow, succeed, record_failure, or_fresh}

-- The failures of a channel in a row, the last one first.
abbrev pub after_failures : Channel → Breaker → List Time → Breaker
after_failures ch b [] = b
after_failures ch b (t ∷ ts) = (record_failure t ch (after_failures ch b ts)).0

-- Until when the breaker is open after them; 0 while it is closed.
abbrev pub opened_until : Breaker → List Time → Time
opened_until b [] = 0
opened_until b (t ∷ ts) =
    let before = opened_until b ts in
    if leb b.threshold (suc (length ts)) then t + b.cooldown else before

abbrev Counts : Channel → Breaker → List Time → Breaker → Type 0
Counts ch b ts after =
    (after.threshold ≡ b.threshold)
    × (after.cooldown ≡ b.cooldown)
    × (or_fresh (after.state ch)
        ≡ record { consecutive_failures = length ts; open_until = opened_until b ts })

record_failure-Counts :
    (ch : Channel) (b : Breaker) (t : Time) (ts : List Time) (after : Breaker)
    → Counts ch b ts after
    → Counts ch b (t ∷ ts) (record_failure t ch after).0
unfolding record_failure
record_failure-Counts ch b t ts after (th, co, st) = ground (arith, th, co, st, channel_eq_refl ch)

after_failures-Counts :
    (ch : Channel) (b : Breaker) (ts : List Time)
    → b.state ch ≡ none
    → Counts ch b ts (after_failures ch b ts)
after_failures-Counts ch b [] closed = (refl, refl, ap or_fresh closed)
after_failures-Counts ch b (t ∷ ts) closed =
    record_failure-Counts ch b t ts _ (after_failures-Counts ch b ts closed)

allow-open_until :
    (now : Time) (ch : Channel) (b : Breaker)
    → allow now ch b ≡ (
        if (or_fresh (b.state ch)).open_until == 0
        then true
        else leb (or_fresh (b.state ch)).open_until now)
unfolding allow
allow-open_until now ch b = by_state (b.state ch)
  where
    by_state :
        (o : Option BreakerState)
        → elim o as (λ o. Bool) [
          | none ↦ true
          | some st ↦ if st.open_until == 0 then true else leb st.open_until now
        ]
          ≡ (if (or_fresh o).open_until == 0 then true else leb (or_fresh o).open_until now)
    by_state none = refl
    by_state (some st) = refl

below-opened_until :
    (b : Breaker) (ts : List Time) → length ts < b.threshold → opened_until b ts ≡ 0
below-opened_until b [] h = refl
below-opened_until b (t ∷ ts) h = ground (arith, below-opened_until b ts)

other-state :
    (c ch : Channel) (b : Breaker) (ts : List Time)
    → channel_eq c ch ≡ false
    → (after_failures ch b ts).state c ≡ b.state c
unfolding record_failure
other-state c ch b [] other = refl
other-state c ch b (t ∷ ts) other = ground (arith, other, other-state c ch b ts other)

same-allow :
    (now : Time) (c : Channel) (a b : Breaker)
    → a.state c ≡ b.state c
    → allow now c a ≡ allow now c b
unfolding allow
same-allow now c a b e = rw (e, allow) refl

succeeded-allow : (now : Time) (ch : Channel) (b : Breaker) → allow now ch (succeed ch b) ≡ true
unfolding allow succeed
succeeded-allow now ch b = ground (arith, channel_eq_refl ch)

admitted :
    (now : Time) (b : Breaker) (t : Time) (ts : List Time)
    → 0 < b.cooldown
    → (if opened_until b (t ∷ ts) == 0 then true else leb (opened_until b (t ∷ ts)) now)
      ≡ (if leb b.threshold (suc (length ts)) then leb (t + b.cooldown) now else true)
admitted now b t ts co = elim (Bool-cases (leb b.threshold (suc (length ts)))) [
  | inl e ↦ ground (arith, e, co)
  | inr e ↦ ground (arith, e, below-opened_until b ts (ground arith))
]

-- A channel that has a closed breaker fails a number of times in a row. Below the threshold it stays
-- admitted; from the threshold on it is refused until the cooldown after the last failure has passed.
-- One success admits it at once, and no other channel is affected.
pub breaker_trips :
    (ch : Channel) (b : Breaker) (t : Time) (ts : List Time) (now : Time) (spare : Channel)
    → b.state ch ≡ none
    → 0 < b.cooldown
    → channel_eq spare ch ≡ false
    → let after = after_failures ch b (t ∷ ts) in
      (allow now ch after
        ≡ (if leb b.threshold (suc (length ts)) then leb (t + b.cooldown) now else true))
      × (allow now ch (succeed ch after) ≡ true)
      × (allow now spare after ≡ allow now spare b)
breaker_trips ch b t ts now spare closed co differs =
    let after = after_failures ch b (t ∷ ts) in
    let (_, _, st) = after_failures-Counts ch b (t ∷ ts) closed in
    let open_is : (or_fresh (after.state ch)).open_until ≡ opened_until b (t ∷ ts) =
      ap (λ (s : BreakerState). s.open_until) st in
    (
      allow-open_until now ch after
          ∙ ap (λ until. if until == 0 then true else leb until now) open_is
          ∙ admitted now b t ts co,
      succeeded-allow now ch after,
      same-allow now spare after b (other-state spare ch b (t ∷ ts) differs),
    )
