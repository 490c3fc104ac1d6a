-- ===== src/Timer.antt =====
-- The durable scheduler (internal/timer/timer.go). A pass reads a batch of pending timers, picks one
-- that is due and not backing off, and runs its effect in one transaction. Handlers are registered by
-- the engines, so they are a field here: a handler gets the clock's reading and the timer, and does
-- its work as a transaction. The readings of the clock within one pass are one instant. The mutexes
-- around the maps are left out: one goroutine runs timers.
pub mod Once
pub mod Batch
pub mod Passes
use kerberon.Base.{
  ℕ, ◌+◌, ◌-◌, ◌*◌, ◌==◌, Bool, true, false, not, Option, none, some, List, [], ◌∷◌, if◌then◌else◌,
  ltb, leb,
}
use kerberon.Core.Time.{Time, Duration, second, minute}
use kerberon.Core.Enums.{TimerKind, timer_kind_valid, kind_eq}
use kerberon.Core.Records.{Timer}
use kerberon.Store.Tx.{
  Db, Tx, Error, Result, ok, err, ◌>>=◌, ◌>>◌, commit, timer_not_pending, self_cancelled,
}
use kerberon.Store.Timers.{
  load_pending_timer, complete_timer, next_pending_timers, insert_timer, cancel_timer,
  cancel_incident_timers,
}

abbrev pub Handler : Type 0
Handler = Time → Timer → Tx Unit

pub record Options : Type 0 where
  pub max_idle_wait : Duration
  pub retry_backoff : Duration
  pub max_retry_backoff : Duration

abbrev or_default : Duration → Duration → Duration
or_default d def = if d == 0 then def else d

unfoldable pub with_defaults : Options → Options
with_defaults o = record {
  max_idle_wait = or_default o.max_idle_wait minute;
  retry_backoff = or_default o.retry_backoff second;
  max_retry_backoff = or_default o.max_retry_backoff minute;
}

pub record Scheduler : Type 0 where
  pub opts : Options
  pub handlers : TimerKind → Option Handler
  pub retry_after : ℕ → Option Time
  pub retry_delay : ℕ → Option Duration
  -- The wake channel holds at most one signal.
  pub woken : Bool

unfoldable pub new : Options → Scheduler
unfolding with_defaults
new o = record {
  opts = with_defaults o;
  handlers = λ k. none;
  retry_after = λ id. none;
  retry_delay = λ id. none;
  woken = false;
}

-- `none` is the panic on an invalid kind or a second handler for one.
unfoldable pub register : TimerKind → Handler → Scheduler → Option Scheduler
register kind h s = if not (timer_kind_valid kind) then none else elim (s.handlers kind) [
  | some _ ↦ none
  | none ↦ some (record s { handlers = λ k. if kind_eq kind k then some h else s.handlers k })
]

abbrev pub wake : Scheduler → Scheduler
wake s = record s { woken = true }

-- ─── Retry bookkeeping ───

-- `defer_`: the delay doubles from failure to failure, up to the cap.
abbrev pub next_delay : Options → Option Duration → Duration
next_delay o none = o.retry_backoff
next_delay o (some d) =
    if d == 0
    then o.retry_backoff
    else if ltb o.max_retry_backoff (d * 2)
    then o.max_retry_backoff
    else d * 2

unfoldable pub defer : ℕ → Time → Scheduler → Scheduler
defer id now s =
    let delay = next_delay s.opts (s.retry_delay id) in
    record s {
      retry_delay = λ i. if i == id then some delay else s.retry_delay i;
      retry_after = λ i. if i == id then some (now + delay) else s.retry_after i;
    }

unfoldable pub clear_defer : ℕ → Scheduler → Scheduler
clear_defer id s = record s {
  retry_after = λ i. if i == id then none else s.retry_after i;
  retry_delay = λ i. if i == id then none else s.retry_delay i;
}

-- ─── One timer ───

-- A handler that finished its own timer is named as such.
abbrev pub name_self_cancelled : {A : Type 0} → Result A → Result A
name_self_cancelled (err timer_not_pending) = err self_cancelled
name_self_cancelled r = r

-- The transaction: the pending check, the effect, and the mark.
unfoldable pub tick : Handler → Time → ℕ → Tx Unit
tick h now id = do
  fresh ← load_pending_timer id
  h now fresh
  λ db. name_self_cancelled (complete_timer fresh.id now db)

-- What is remembered of the outcome.
unfoldable pub settle : ℕ → Time → Result Unit → Scheduler → Scheduler
settle id now (ok _) s = clear_defer id s
settle id now (err timer_not_pending) s = clear_defer id s
settle id now (err _) s = defer id now s

unfoldable pub execute : Time → Timer → Scheduler → Db → Scheduler × Db
unfolding settle commit
execute now t s db = elim (s.handlers t.kind) [
  | none ↦ (defer t.id now s, db)
  | some h ↦ let (r, db') = commit (tick h now t.id) db in (settle t.id now r s, db')
]

-- ─── One pass ───

abbrev pub batch_size : ℕ
batch_size = 16

-- A pass runs a timer, or tells how long to wait.
pub data Choice : Type 0 where
  fire : Timer → Choice
  idle : Duration → Choice

abbrev pub shorter : Duration → Duration → Duration
shorter d wait = if ltb d wait then d else wait

-- Whether a timer is backing off, and until when.
abbrev pub deferred_until : Option Time → Time → Option Time
deferred_until none now = none
deferred_until (some until) now = if ltb now until then some until else none

-- The loop over the batch. It stops at the first timer that is not yet due.
unfoldable pub choose : (ℕ → Option Time) → Time → Duration → List Timer → Choice
choose retry now wait [] = idle wait
choose retry now wait (t ∷ batch) = elim (deferred_until (retry t.id) now) [
  | some until ↦ choose retry now (shorter (until - now) wait) batch
  | none ↦ if ltb now t.fire_at then idle (shorter (t.fire_at - now) wait) else fire t
]

-- `step`; a wait of 0 means that there may be more to do at once.
unfoldable pub step : Time → Scheduler → Db → Duration × (Scheduler × Db)
step now s db =
    elim (choose s.retry_after now s.opts.max_idle_wait (next_pending_timers db batch_size)) [
      | idle wait ↦ (wait, (s, db))
      | fire t ↦ (0, execute now t s db)
    ]

-- ─── The callers' side ───

unfoldable pub schedule : Time → Timer → Tx ℕ
schedule now t = insert_timer (if t.created_at == 0 then record t { created_at = now } else t)

abbrev wake_if_ok : {A : Type 0} → Result A → Scheduler → Scheduler
wake_if_ok (ok _) s = wake s
wake_if_ok (err _) s = s

-- A change in a transaction of its own, and a wake after its commit.
unfoldable pub and_wake : {A : Type 0} → Tx A → Scheduler → Db → Result A × (Scheduler × Db)
unfolding commit
and_wake m s db = let (r, db') = commit m db in (r, (wake_if_ok r s, db'))

unfoldable pub schedule_now : Time → Timer → Scheduler → Db → Result ℕ × (Scheduler × Db)
unfolding and_wake schedule
schedule_now now t = and_wake (schedule now t)

unfoldable pub cancel : Time → ℕ → Scheduler → Db → Result Unit × (Scheduler × Db)
unfolding and_wake
cancel now id = and_wake (cancel_timer id now)

unfoldable pub cancel_for_incident :
    Time → ℕ → List TimerKind → Scheduler → Db → Result ℕ × (Scheduler × Db)
unfolding and_wake
cancel_for_incident now incident_id kinds = and_wake (cancel_incident_timers incident_id now kinds)
