-- ===== src/Schedule/Bisection.antt =====
-- The bisection for the change of the offset on a date (`transitionOnDate` of
-- internal/schedule/wallclock.go).
use kerberon.Base.{
  ℕ, zero, suc, ◌+◌, ◌-◌, ◌*◌, ◌/◌, ◌%◌, ◌≤◌, ◌<◌, ◌≡◌, ◌≢◌, ap, ◌==◌, ==_iff, some, ltb, leb,
  arith, Bool-cases, inl, inr,
}
use kerberon.Core.Time.{Time, Duration, second}
use kerberon.Schedule.Zone.{Zone, hour, day, offset_at, date}
use kerberon.Schedule.WallClock.{WallClock, bisect, halvings, transition_on_date}

-- Within the window there is one change, at an instant on the second.
pub record OneChange (z : Zone) (lo hi change : Time) : Type 0 where
  pub above : lo < change
  pub below : change ≤ hi
  pub whole : change % second ≡ 0
  pub before : (t : Time) → lo ≤ t → t < change → offset_at z t ≢ offset_at z hi
  pub after : (t : Time) → change ≤ t → t ≤ hi → offset_at z t ≡ offset_at z hi

-- A second, doubled so many times.
abbrev window : ℕ → Duration
window zero = second
window (suc n) = 2 * window n

module _ (z : Zone) (start stop change : Time) (one : OneChange z start stop change) where
  bisect-change :
      (fuel : ℕ) (lo hi : Time)
      → start ≤ lo
      → lo < change
      → change ≤ hi
      → hi ≤ stop
      → hi - lo ≤ window fuel
      → (change ≤ bisect z (offset_at z stop) fuel lo hi)
        × (bisect z (offset_at z stop) fuel lo hi < change + second)
  unfolding bisect
  bisect-change zero lo hi s a b e enough = (b, omega arith)
  bisect-change (suc fuel) lo hi s a b e enough =
      let mid = lo + (hi - lo) / 2 in
      elim (Bool-cases (ltb second (hi - lo))) [
        | inl long ↦ elim (Bool-cases (offset_at z mid == offset_at z stop)) [
          | inl new ↦
              let reached : change ≤ mid = elim (Bool-cases (leb change mid)) [
                | inl r ↦ ground arith
                | inr r ↦ absurd (
                    one.before mid (omega arith) (ground arith)
                      ((==_iff (offset_at z mid) (offset_at z stop)).0 new))
              ] in
              rw (long, new)
                (bisect-change fuel lo mid s a reached (omega arith) (omega (arith, enough)))
          | inr old ↦
              let ahead : mid < change = elim (Bool-cases (ltb mid change)) [
                | inl r ↦ ground arith
                | inr r ↦
                    let same = one.after mid (ground arith) (omega arith) in
                    ground (arith, same, old)
              ] in
              rw (long, old)
                (bisect-change fuel mid hi (omega arith) ahead b e (omega (arith, enough)))
        ]
        | inr short ↦ rw short (b, ground arith)
      ]

-- Where the offset changes once in the 26 hours of the window, at an instant on the second, the search
-- gives that instant: on a day on which the clock springs forward, the end of the gap.
pub transition_found :
    (z : Zone) (w : WallClock) (change : Time)
    → 12 * hour ≤ date z (w.date * day + 12 * hour)
    → OneChange z
        (date z (w.date * day + 12 * hour) - 12 * hour)
        (date z (w.date * day + 12 * hour) + 14 * hour)
        change
    → transition_on_date z w ≡ some change
unfolding transition_on_date
transition_found z w change low one =
    let noon = date z (w.date * day + 12 * hour) in
    let (from, below) =
      bisect-change z (noon - 12 * hour) (noon + 14 * hour) change one halvings (noon - 12 * hour)
        (noon + 14 * hour) (omega arith) one.above one.below (omega arith) (omega arith) in
    let found =
      bisect z (offset_at z (noon + 14 * hour)) halvings (noon - 12 * hour) (noon + 14 * hour) in
    let exact : found - found % second ≡ change = omega (arith, from, below, one.whole) in
    elim (Bool-cases (offset_at z (noon - 12 * hour) == offset_at z (noon + 14 * hour))) [
      | inl same ↦ absurd (
          one.before (noon - 12 * hour) (omega arith) one.above
            ((==_iff (offset_at z (noon - 12 * hour)) (offset_at z (noon + 14 * hour))).0 same))
      | inr other ↦ rw other (ap some exact)
    ]
