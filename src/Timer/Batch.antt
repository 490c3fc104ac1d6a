-- ===== src/Timer/Batch.antt =====
-- What a pass reads: the earliest pending timers, in order (internal/store/timers.go).
use kerberon.Base.{◌≡◌, true, false, arith, All, All-take, All-filter, filter-All, filter}
use kerberon.Base.Sort.{sort-All, sort-IsSorted, take-IsSorted, IsSorted}
use kerberon.Core.Time.{stored}
use kerberon.Core.Records.{Timer, is_pending}
use kerberon.Store.Tx.{Db}
use kerberon.Store.Timers.{next_pending_timers, pending_timers, sooner}
use kerberon.Timer.{batch_size}

-- A row of the table: its time is a whole number of seconds.
abbrev pub OnTheSecond : Timer → Type 0
OnTheSecond t = stored t.fire_at ≡ t.fire_at

sooner-total : (a b : Timer) → sooner a b ≡ false → sooner b a ≡ true
sooner-total a b h = ground arith

sooner_trans : (a b c : Timer) → sooner a b ≡ true → sooner b c ≡ true → sooner a c ≡ true
sooner_trans a b c h k = ground arith

module _ (db : Db) where
  pub next-pending : All (λ t. is_pending t ≡ true) (next_pending_timers db batch_size)
  unfolding next_pending_timers pending_timers
  next-pending =
      All-take (λ t. is_pending t ≡ true) batch_size _
        (sort-All sooner (λ t. is_pending t ≡ true) _ (filter-All is_pending db.timers))

  pub next-IsSorted : IsSorted sooner (next_pending_timers db batch_size)
  unfolding next_pending_timers pending_timers
  next-IsSorted =
      take-IsSorted sooner batch_size _
        (sort-IsSorted sooner sooner-total sooner_trans (filter is_pending db.timers))

  pub next-OnTheSecond :
      All OnTheSecond db.timers → All OnTheSecond (next_pending_timers db batch_size)
  unfolding next_pending_timers pending_timers
  next-OnTheSecond on =
      All-take OnTheSecond batch_size _
        (sort-All sooner OnTheSecond _ (All-filter OnTheSecond is_pending db.timers on))
