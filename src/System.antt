-- ===== src/System.antt =====
-- How `serve` of cmd/kerberon/main.go wires the parts: the handlers of the four timer kinds, what
-- happens when a group's window closes, and the sequences of calls that reach the database.
use kerberon.Base.{ℕ, ltb, String, str_eq, Option, none, some, List, [], ◌∷◌, if◌then◌else◌}
use kerberon.Core.Time.{Time}
use kerberon.Core.Enums.{
  TimerKind, escalate, group_wait, resolve_timeout, repeat, AckVia, EventKind,
}
use kerberon.Core.Records.{Incident, Alert, Notification, undelivered}
use kerberon.Policy.{Policy}
use kerberon.Route.{Route}
use kerberon.Store.Tx.{Error, Db, Tx, pure, commit}
use kerberon.Store.Incidents.{resolve, insert_event}
use kerberon.Timer.{Handler, Scheduler, wake, step, and_wake}
use kerberon.Escalate.Engine as Escalate
use kerberon.Escalate.Engine.{begin, handle_escalate, handle_ack_timeout, acknowledge}
use kerberon.Group.Engine as Group
use kerberon.Group.Engine.{handle_group_wait, handle_resolve_timeout}
use kerberon.Group.Ingest.{Summary, ingest}
use kerberon.Notify.Dispatcher.{Dispatcher, drain_once}

-- What the configuration and the libraries supply.
pub record Config : Type 0 where
  pub env : Escalate.Env
  pub hash : String → String
  pub routes : List Route
  pub policies : List Policy

abbrev pub find_policy : String → List Policy → Option Policy
find_policy name [] = none
find_policy name (p ∷ policies) = if str_eq p.name name then some p else find_policy name policies

module _ (c : Config) where
  -- `OnPageDue`: an incident whose policy has left the configuration is not escalated.
  unfoldable pub on_page : Time → Incident → Tx Unit
  on_page now inc = elim (find_policy inc.policy c.policies) [
    | none ↦ pure tt
    | some policy ↦ begin c.env now inc policy
  ]

  abbrev pub group_env : Group.Env
  group_env = record { hash = c.hash; on_page = on_page }

  -- The handlers that the two engines register.
  unfoldable pub handlers : TimerKind → Option Handler
  handlers escalate = some (handle_escalate c.env)
  handlers repeat = some (handle_ack_timeout c.env)
  handlers group_wait = some (handle_group_wait group_env)
  handlers resolve_timeout = some handle_resolve_timeout
  handlers (TimerKind.other s) = none

-- `OnDeadLetter`: a page that is given up is put on its incident's timeline.
unfoldable pub on_dead_letter : Time → Notification → Tx Unit
on_dead_letter now n =
    insert_event n.incident_id EventKind.notified (undelivered n.channel n.target_user n.last_error)
      now

-- A dispatcher carries that hook, which reads the clock again.
abbrev pub wired_dispatcher : Time → Dispatcher → Dispatcher
wired_dispatcher now d = record d { on_dead_letter = some (on_dead_letter now) }

-- What reaches the database from outside, each at an instant.
pub data Call : Type 0 where
  alerts_arrive : List Alert → Call
  scheduler_passes : Call
  human_acks : ℕ → String → AckVia → Call
  human_resolves : ℕ → String → Call
  -- With what the dispatcher is at the time: its breaker, and what its channels answer.
  outbox_drains : Dispatcher → Call

abbrev after {ℓ} : {A : Type ℓ} → A × (Scheduler × Db) → Scheduler × Db
after (a, s) = s

-- `Ingest` wakes the scheduler where it reports no error and has accepted an alert.
abbrev wake_if_accepted : Summary × Option Error → Scheduler → Scheduler
wake_if_accepted (r, none) s = if ltb 0 r.alerts_accepted then wake s else s
wake_if_accepted (r, some e) s = s

module _ (c : Config) where
  -- The scheduler is the one that carries the handlers of this configuration.
  abbrev pub wired : Scheduler → Scheduler
  wired s = record s { handlers = handlers c }

  unfoldable pub handle : Time → Call → Scheduler × Db → Scheduler × Db
  unfolding and_wake commit
  handle now (alerts_arrive alerts) (s, db) =
      let (r, db') = ingest (group_env c) now c.routes alerts db in (wake_if_accepted r s, db')
  handle now scheduler_passes (s, db) = after (step now (wired s) db)
  handle now (human_acks id user via) (s, db) = after (and_wake (acknowledge id user via now) s db)
  handle now (human_resolves id user) (s, db) =
      let (r, db') = commit (resolve id user now) db in (s, db')
  handle now (outbox_drains d) (s, db) = (s, (drain_once now (wired_dispatcher now d) db).1.1)

  -- Any history of calls, in the order in which their transactions run.
  unfoldable pub run : List (Time × Call) → Scheduler × Db → Scheduler × Db
  unfolding handle
  run [] st = st
  run ((now, call) ∷ calls) st = run calls (handle now call st)
