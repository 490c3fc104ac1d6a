-- ===== src/Clock.antt =====
-- internal/clock/fake.go: the clock that moves only when it is told to. A waiter is found by its id, which
-- stands for the pointer; one that has been removed stays known to whoever holds it, and `Reset` puts it
-- back. A channel holds one tick at most. The mutex makes each operation one step.
pub mod Advance
pub mod Delivery
pub mod Ticks
use kerberon.Base.{
  ℕ, zero, suc, ◌+◌, ◌-◌, ◌==◌, Bool, true, false, ◌&&◌, Option, none, some, List, [], ◌∷◌, ◌++◌,
  filter, any, find, map, if◌then◌else◌, ltb, leb, length,
}
use kerberon.Core.Time.{Time, Duration}

pub record Waiter : Type 0 where
  pub id : ℕ
  pub ch : Option Time
  pub deadline : Time
  pub period : Duration

pub record FakeClock : Type 0 where
  pub now : Time
  pub waiters : List Waiter
  pub released : List Waiter

unfoldable pub new_fake : Time → FakeClock
new_fake now = record { now = now; waiters = []; released = [] }

-- A full buffer keeps the tick that it has.
unfoldable pub fire : Time → Waiter → Waiter
fire at w = elim w.ch [ some _ ↦ w | none ↦ record w { ch = some at } ]

abbrev pub is_waiter : ℕ → Waiter → Bool
is_waiter id w = w.id == id

abbrev sooner : Waiter → Option Waiter → Option Waiter
sooner w none = some w
sooner w (some best) = if ltb w.deadline best.deadline then some w else some best

-- The loop over the waiters; of two with one deadline, the first is kept.
unfoldable pub earliest_from : Time → Option Waiter → List Waiter → Option Waiter
earliest_from target best [] = best
earliest_from target best (w ∷ ws) =
    earliest_from target (if ltb target w.deadline then best else sooner w best) ws

unfoldable pub earliest_due : Time → FakeClock → Option Waiter
unfolding earliest_from
earliest_due target f = earliest_from target none f.waiters

unfoldable pub replace : Waiter → List Waiter → List Waiter
replace w [] = []
replace w (v ∷ vs) = let rest = replace w vs in if is_waiter w.id v then w ∷ vs else v ∷ rest

unfoldable pub remove_first : ℕ → List Waiter → List Waiter
remove_first id [] = []
remove_first id (v ∷ vs) = let rest = remove_first id vs in if is_waiter id v then vs else v ∷ rest

-- `removeLocked`: the waiter as it is now, and whether it was waiting.
unfoldable pub remove : Waiter → FakeClock → FakeClock × Bool
unfolding remove_first
remove w f =
    if any (is_waiter w.id) f.waiters
    then (record f { waiters = remove_first w.id f.waiters; released = w ∷ f.released }, true)
    else (f, false)

-- The body of the loop of `Advance`, for the earliest waiter that is due: its own deadline is the time
-- while it fires.
unfoldable pub fire_due : Waiter → FakeClock → FakeClock
unfolding fire replace remove
fire_due w f =
    let at = w.deadline in
    let fired = fire at w in
    if ltb 0 w.period
    then record f {
      now = at;
      waiters = replace (record fired { deadline = at + w.period }) f.waiters;
    }
    else (remove fired (record f { now = at })).0

-- The loop, which is cut off with `none` where the fuel runs out.
unfoldable pub fire_all : ℕ → Time → FakeClock → Option FakeClock
unfolding earliest_due fire_due
fire_all zero target f = elim (earliest_due target f) [
  | none ↦ some (record f { now = target })
  | some w ↦ none
]
fire_all (suc fuel) target f = elim (earliest_due target f) [
  | none ↦ some (record f { now = target })
  | some w ↦ fire_all fuel target (fire_due w f)
]

-- How long every waiter still has ticks before the target.
unfoldable pub ticks_left : Time → List Waiter → ℕ
ticks_left target [] = 0
ticks_left target (w ∷ ws) = (suc target - w.deadline) + ticks_left target ws

unfoldable pub advance : Duration → FakeClock → Option FakeClock
unfolding fire_all ticks_left
advance d f = fire_all (ticks_left (f.now + d) f.waiters) (f.now + d) f

-- `none` is its panic: the clock does not go back.
unfoldable pub set : Time → FakeClock → Option FakeClock
unfolding advance
set t f = let moved = advance (t - f.now) f in if ltb t f.now then none else moved

-- `addWaiter`, for the id of the new waiter. A one-shot waiter of no duration is due at once.
unfoldable pub add_waiter : ℕ → Duration → Duration → FakeClock → FakeClock
unfolding fire remove
add_waiter id d period f =
    let w : Waiter = record { id = id; ch = none; deadline = f.now + d; period = period } in
    let added = record f { waiters = f.waiters ++ w ∷ [] } in
    if period == 0 && d == 0 then (remove (fire f.now w) added).0 else added

unfoldable pub new_timer : ℕ → Duration → FakeClock → FakeClock
unfolding add_waiter
new_timer id d f = add_waiter id d 0 f

unfoldable pub new_ticker : ℕ → Duration → FakeClock → Option FakeClock
unfolding add_waiter
new_ticker id d f = if d == 0 then none else some (add_waiter id d d f)

-- `Stop`: whether it was waiting.
unfoldable pub stop : Waiter → FakeClock → FakeClock × Bool
unfolding remove
stop w f = remove w f

-- `Reset` of a timer: whether it was waiting.
unfoldable pub reset : Duration → Waiter → FakeClock → FakeClock × Bool
unfolding replace remove_first
reset d w f =
    let moved = record w { deadline = f.now + d } in
    if any (is_waiter w.id) f.waiters
    then (record f { waiters = replace moved f.waiters }, true)
    else (
      record f { waiters = f.waiters ++ moved ∷ []; released = remove_first w.id f.released },
      false,
    )

-- `Reset` of a ticker changes its period too.
unfoldable pub reset_ticker : Duration → Waiter → FakeClock → Option FakeClock
unfolding reset
reset_ticker d w f = if d == 0 then none else some (reset d (record w { period = d }) f).0
