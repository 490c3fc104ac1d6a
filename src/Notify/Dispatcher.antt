-- ===== src/Notify/Dispatcher.antt =====
-- internal/notify/dispatcher.go and channel.go: the outbox is drained in batches; each page is sent
-- once per attempt and its outcome recorded. The channels' `Send` and the dead-letter hook are fields.
-- The workers of a batch run at once in the program; here they take their turns.
use kerberon.Base.{
  ℕ, zero, suc, ◌+◌, ◌-◌, ◌*◌, String, Bool, true, false, not, ◌&&◌, Option, none, some, List, [],
  ◌∷◌, if◌then◌else◌, leb, length, filter,
}
use kerberon.Core.Time.{Time, Duration, second, minute}
use kerberon.Core.Enums.{Channel, Severity}
use kerberon.Core.Records.{Notification}
use kerberon.Store.Tx.{Db, Tx, Result, ok, err, pure, ◌>>◌, commit}
use kerberon.Store.Notifications.{
  claim_due_notifications, mark_notification_sent, mark_notification_failed, mark_notification_dead,
}
use kerberon.Notify.Breaker.{Breaker, allow, succeed, record_failure}

pub record Message : Type 0 where
  pub incident_id : ℕ
  pub destination : String
  pub title : String
  pub body : String
  pub severity : Severity
  pub ack_link : String

-- What `Send` reports; `IsRetryable` reads the flag.
pub data Outcome : Type 0 where
  delivered : Outcome
  refused : (cause : String) (retryable : Bool) → Outcome

-- ─── Retry schedule ───

abbrev pub backoff_steps : ℕ → Duration
backoff_steps zero = 5 * second
backoff_steps (suc zero) = 15 * second
backoff_steps (suc (suc zero)) = 45 * second
backoff_steps (suc (suc (suc zero))) = 2 * minute
backoff_steps _ = 5 * minute

-- The delay before attempt n, counted from 1. The jitter takes a duration to a random part of it;
-- `none` is a schedule without jitter.
unfoldable pub backoff : ℕ → Option (Duration → Duration) → Duration
backoff attempt jitter =
    let base = backoff_steps (attempt - 1) in elim jitter [ none ↦ base | some part ↦ part base ]

abbrev pub max_attempts : ℕ
max_attempts = 5

pub record Dispatcher : Type 0 where
  pub channels : Channel → Option (Message → Outcome)
  pub breaker : Breaker
  pub workers : ℕ
  pub lease : Duration
  pub max_attempts : ℕ
  pub jitter : Option (Duration → Duration)
  pub on_dead_letter : Option (Notification → Tx Unit)

abbrev pub message : Notification → Message
message n = record {
  incident_id = n.incident_id;
  destination = n.destination;
  title = n.title;
  body = n.body;
  severity = n.severity;
  ack_link = n.ack_url;
}

abbrev pub state_after : {A : Type 0} → Result A × Db → Db
state_after (r, db) = db

abbrev pub dead_letter : Option (Notification → Tx Unit) → Notification → Tx Unit
dead_letter none n = pure tt
dead_letter (some hook) n = hook n

-- `fail`: another attempt, or the end of the road.
unfoldable pub fail_delivery : Time → Notification → String → Bool → Dispatcher → Db → Db
unfolding commit backoff
fail_delivery now n cause retryable d db =
    if retryable && not (leb d.max_attempts n.attempts)
    then state_after
        (commit (mark_notification_failed n.id (now + backoff n.attempts d.jitter) cause) db)
    else state_after
        (commit (do mark_notification_dead n.id cause; dead_letter d.on_dead_letter n) db)

abbrev with_breaker : Dispatcher → Breaker → Dispatcher
with_breaker d b = record d { breaker = b }

-- What is recorded of an outcome, on the breaker and in the outbox.
unfoldable pub conclude : Time → Dispatcher → Notification → Db → Outcome → Dispatcher × Db
unfolding fail_delivery commit
conclude now d n db delivered = (
  with_breaker d (succeed n.channel d.breaker),
  state_after (commit (mark_notification_sent n.id now) db),
)
conclude now d n db (refused cause retryable) = (
  with_breaker d (record_failure now n.channel d.breaker).0,
  fail_delivery now n cause retryable d db,
)

unfoldable pub attempt :
    Time → Dispatcher → Notification → Db → Option (Message → Outcome) → Dispatcher × Db
unfolding conclude
attempt now d n db none = (d, fail_delivery now n "no channel registered" false d db)
attempt now d n db (some send) =
    if not (allow now n.channel d.breaker)
    then (d, fail_delivery now n "circuit breaker is open" true d db)
    else conclude now d n db (send (message n))

unfoldable pub deliver : Time → Dispatcher → Notification → Db → Dispatcher × Db
unfolding attempt
deliver now d n db = attempt now d n db (d.channels n.channel)

unfoldable pub deliver_each : Time → List Notification → Dispatcher → Db → Dispatcher × Db
deliver_each now [] d db = (d, db)
deliver_each now (n ∷ batch) d db =
    let (d', db') = deliver now d n db in deliver_each now batch d' db'

-- `DrainOnce` answers with how many were attempted.
unfoldable pub drain_once : Time → Dispatcher → Db → ℕ × (Dispatcher × Db)
unfolding commit deliver_each
drain_once now d db =
    let (r, db') = commit (claim_due_notifications now d.lease d.workers) db in
    elim r [ err e ↦ (0, (d, db')) | ok batch ↦ (length batch, deliver_each now batch d db') ]

abbrev is_known : Option (Message → Outcome) → Bool
is_known none = false
is_known (some _) = true

unfoldable pub available : Time → Dispatcher → List Channel → List Channel
available now d preferred =
    filter (λ ch. is_known (d.channels ch) && allow now ch d.breaker) preferred
