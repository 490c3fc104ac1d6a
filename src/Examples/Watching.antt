-- ===== src/Examples/Watching.antt =====
-- Delivery, tokens, switches and schedules.
use kerberon.Base.{
  ℕ, suc, min, ◌+◌, ◌*◌, ◌≡◌, ◌⊎◌, refl, true, false, not, Option, some, none, [], ◌∷◌, arith, any,
  leb, if◌then◌else◌,
}
use kerberon.Core.Time.{minute}
use kerberon.Core.Enums.{Channel}
use kerberon.Core.Records.{Override, Interval, contains}
use kerberon.Base.{List, All, map, find}
use kerberon.Core.Records.{Notification}
use kerberon.Store.Tx.{ok}
use kerberon.Store.Table.{update}
use kerberon.Store.Notifications.{notification_is, claim, due_pages, claim_due_notifications}
use kerberon.Store.Soonest.{AreFirst}
use kerberon.Store.Claims.{Claimed, taken, claim_due_notifications-Claimed}
use kerberon.Store.Heartbeats.{overdue_heartbeats, mark_heartbeat_missing}
use kerberon.Notify.Breaker.{Breaker, allow, succeed}
use kerberon.Notify.Trips.{after_failures, breaker_trips}
use kerberon.Notify.Dispatcher.{deliver}
use kerberon.Notify.Delivery.{verdict, settled, attempt_settles}
use kerberon.System.{wired_dispatcher}
use kerberon.Heartbeat.Sweeper.{Texts, Sink, sweep_once, sweep_each}
use kerberon.Heartbeat.Once.{sweep_raises_once}
use kerberon.Schedule.Resolver.{
  Schedule, Layer, Resolver, new_resolver, at, gaps, intervals, in_force, layer_at,
}
use kerberon.Schedule.Gaps.{gaps_complement}
use kerberon.Schedule.Overrides.{Latest, at-Latest}
use kerberon.Base.Bytes.{Bytes}
use kerberon.Ack.{canonical, verify_any, hard_limit}
use kerberon.Ack.Canonical.{canonical_injective}
use kerberon.Ack.Steps.{FirstIn, verify_any_finds_first}
use kerberon.Store.Tx.{commit}
use kerberon.Examples.Data.{page, dispatcher, db}

abbrev breaker : Breaker
breaker = record { threshold = 2; cooldown = minute; state = λ ch. none }

breaker_trips_example :
    (allow
        (11 * minute)
        Channel.ntfy
        (after_failures Channel.ntfy breaker (10 * minute ∷ 9 * minute ∷ []))
      ≡ (if leb 2 2 then leb (10 * minute + minute) (11 * minute) else true))
    × (allow (11 * minute) Channel.ntfy (
          succeed Channel.ntfy
            (after_failures Channel.ntfy breaker (10 * minute ∷ 9 * minute ∷ [])))
        ≡ true)
    × (allow
          (11 * minute)
          Channel.email
          (after_failures Channel.ntfy breaker (10 * minute ∷ 9 * minute ∷ []))
        ≡ allow (11 * minute) Channel.email breaker)
breaker_trips_example =
    breaker_trips Channel.ntfy breaker (10 * minute) (9 * minute ∷ []) (11 * minute) Channel.email
      refl (omega arith) refl

attempt_settles_example :
    ((deliver (91 * minute) (wired_dispatcher (91 * minute) dispatcher) page db).1.notifications
      ≡ update
          (notification_is 1)
          (settled (91 * minute) dispatcher page (verdict (91 * minute) dispatcher page))
          (page ∷ []))
    × ((row : Notification)
        → find (notification_is 1) (page ∷ []) ≡ some row
        → find
            (notification_is 1)
            (deliver
              (91 * minute)
              (wired_dispatcher (91 * minute) dispatcher)
              page
              db).1.notifications
          ≡ some
              (settled (91 * minute) dispatcher page (verdict (91 * minute) dispatcher page) row))
attempt_settles_example = attempt_settles (91 * minute) dispatcher page db refl

abbrev found_pages : List Notification
found_pages = due_pages (96 * minute) minute 1 (page ∷ [])

claim_due_notifications-Claimed_example :
    (claim_due_notifications (96 * minute) minute 1 db
      ≡ ok (
        map claim found_pages,
        record db { notifications = update (taken found_pages) claim (page ∷ []) },
      ))
    × AreFirst (96 * minute) minute 1 (page ∷ []) found_pages
    × All (Claimed (λ n. n.target_user ≡ "ann") (96 * minute) minute) (map claim found_pages)
claim_due_notifications-Claimed_example =
    claim_due_notifications-Claimed (λ n. n.target_user ≡ "ann") (96 * minute) minute 1 db
      (refl, tt) (refl, tt)

-- ─── Tokens ───

canonical_injective_example :
    (◌≡◌ {A = ℕ} 7 7) × (◌≡◌ {A = Bytes} (97 ∷ []) (97 ∷ [])) × (◌≡◌ {A = ℕ} 1 1)
canonical_injective_example =
    canonical_injective 7 7 (97 ∷ []) (97 ∷ []) 1 1 (omega arith) (omega arith) (omega arith)
      (omega arith) (omega arith) (omega arith) refl

abbrev sign : Bytes → Bytes
sign bytes = bytes

verify_any_finds_first_example :
    FirstIn sign 7
      (97 ∷ [])
      (canonical 7 (97 ∷ []) 1)
      0
      (suc (min 2 hard_limit))
      (verify_any sign 7 (97 ∷ []) 2 (canonical 7 (97 ∷ []) 1))
verify_any_finds_first_example = verify_any_finds_first sign 7 (97 ∷ []) 2 (canonical 7 (97 ∷ []) 1)

-- ─── Switches ───

abbrev texts : Texts
texts = record { severity_name = λ s. "critical"; summary = λ h. h.name; description = λ h. h.name }

abbrev no_sink : Option Sink
no_sink = none

swept : (sweep_once texts no_sink (91 * minute) db).0.error ≡ none
unfolding sweep_once sweep_each overdue_heartbeats mark_heartbeat_missing commit
swept = refl

sweep_raises_once_example :
    (overdue_heartbeats (sweep_once texts no_sink (91 * minute) db).1 (91 * minute) ≡ [])
    × ((texts' : Texts) (sink' : Option Sink)
        → sweep_once texts' sink' (91 * minute) (sweep_once texts no_sink (91 * minute) db).1
          ≡ (record { raised = 0; error = none }, (sweep_once texts no_sink (91 * minute) db).1))
sweep_raises_once_example = sweep_raises_once texts no_sink (91 * minute) db (λ h db. refl) swept

-- ─── Schedules ───

abbrev layer : Layer
layer = record {
  user_at = λ t. if leb (60 * minute) t then some "ann" else none;
  boundaries = λ from to. 60 * minute ∷ [];
}

abbrev schedule : Schedule
schedule = record { name = "primary"; layers = layer ∷ [] }

abbrev override : Override
override = record {
  id = 1;
  schedule_name = "primary";
  user_id = "bob";
  starts_at = 70 * minute;
  ends_at = 80 * minute;
  reason = "swap";
  created_at = 10 * minute;
  created_by = "ann";
}

abbrev resolver : Resolver
resolver = record { schedule = schedule; overrides = override ∷ [] }

gaps_complement_example :
    any (λ (g : Interval). contains g (50 * minute)) (gaps resolver 0 (100 * minute))
    ≡ not (any (λ (iv : Interval). contains iv (50 * minute)) (intervals resolver 0 (100 * minute)))
gaps_complement_example =
    gaps_complement resolver 0 (100 * minute) (50 * minute) (omega arith) (omega arith)

at-Latest_example :
    ((w : Override) × (at (new_resolver schedule (override ∷ [])) (75 * minute) ≡ some w.user_id)
      × Latest "primary" (75 * minute) (override ∷ []) w)
    ⊎ ((any (in_force "primary" (75 * minute)) (override ∷ []) ≡ false)
        × (at (new_resolver schedule (override ∷ [])) (75 * minute)
            ≡ layer_at (75 * minute) (layer ∷ [])))
at-Latest_example = at-Latest schedule (override ∷ []) (75 * minute)
