-- ===== src/Escalate/Engine.antt =====
-- internal/escalate/escalate.go: the engine that advances an incident through its policy. What it
-- asks of others is a record: who is on call, where to reach them, the hash of an outbox key, and
-- the acknowledgement link.
use kerberon.Base.{
  ℕ, suc, ◌+◌, ◌==◌, ◌++◌, String, not, Option, none, some, List, [], ◌∷◌, if◌then◌else◌,
}
use kerberon.Core.Time.{Time, Duration, stored}
use kerberon.Core.Enums.{Channel, triggered, escalate, repeat, pending, AckVia, EventKind}
use kerberon.Core.Records.{
  Incident, Timer, Payload, step_payload, Notification, Ack, nobody_on_call, paged, unanswered,
  taken, ack_elapsed,
}
use kerberon.Policy.{Policy, Step, Target, encode, decode_policy, step_at, exhausted, total_passes}
use kerberon.Store.Table.{next_id}
use kerberon.Store.Tx.{
  Db, Tx, Result, ok, err, pure, fail, ◌>>=◌, ◌>>◌, lift, has_incident, foreign_key,
  duplicate_notification, not_acknowledgeable, no_policy, bad_payload,
}
use kerberon.Store.Timers.{insert_timer, cancel_incident_timers}
use kerberon.Store.Incidents.{
  load_incident, acknowledge_incident, store_snapshot, set_current_step, expire_incident,
  resume_incident, insert_event, is_triggered, is_acknowledged,
}
use kerberon.Store.Notifications.{enqueue_notification}

pub record Env : Type 0 where
  -- `TargetResolver`: the users of some targets, at an instant; it may fail.
  pub resolve_targets : Time → List Target → Result (List String)
  -- `ContactBook`
  pub destination : String → Channel → Option String
  -- `store.IdempotencyKey`, over incident, step, user, channel and pass.
  pub idempotency_key : ℕ → ℕ → String → Channel → ℕ → String
  -- `ackLink` and `body`, for an incident, a user and a step.
  pub ack_link : Incident → String → ℕ → String
  pub body : Incident → String → ℕ → String

-- The timer for a rung; its payload says which.
unfoldable pub schedule_step : ℕ → ℕ → Time → Time → Tx Unit
schedule_step incident_id step fire_at now = do
  insert_timer (record {
    id = 0;
    incident_id = incident_id;
    kind = escalate;
    fire_at = fire_at;
    payload = step_payload step;
    created_at = now;
    claimed_at = none;
    completed_at = none;
    cancelled_at = none;
  })
  pure tt

-- The delay of the last step, which the policy has when this is called.
abbrev pub last_delay : List Step → Duration
last_delay [] = 0
last_delay (s ∷ []) = s.delay
last_delay (s ∷ t ∷ rest) = last_delay (t ∷ rest)

unfoldable pub schedule_expiry : ℕ → Policy → ℕ → Time → Tx Unit
unfolding schedule_step
schedule_expiry incident_id policy index now =
    schedule_step incident_id index (now + last_delay policy.steps) now

-- Nobody answered. A change of status in the meantime makes this a no-op.
unfoldable pub expire : ℕ → Policy → Time → Tx Unit
expire incident_id policy now = do
  took ← expire_incident incident_id
  if not took
      then pure tt
      else insert_event incident_id EventKind.expired (unanswered policy.name (total_passes policy))
          now

abbrev pub step_delay : Option (Step × ℕ) → Duration
step_delay none = 0
step_delay (some (s, pass)) = s.delay

-- A page that is in the outbox already is passed over; any other error ends the step.
abbrev pub counted : Db → Result (ℕ × Db) → Result (ℕ × Db)
counted db (ok (id, db')) = ok (1, db')
counted db (err duplicate_notification) = ok (0, db)
counted db (err e) = err e

abbrev pub resolved_users : Result (List String) → Tx (List String)
resolved_users (ok users) = pure users
resolved_users (err e) = fail e

abbrev pub payload_step : Payload → Tx ℕ
payload_step Payload.empty = pure 0
payload_step Payload.corrupt = fail bad_payload
payload_step (step_payload n) = pure n

module _ (env : Env) where
  unfoldable pub page : Time → Incident → ℕ → ℕ → String → Channel → String → Notification
  page now inc index pass user ch dest = record {
    id = 0;
    incident_id = inc.id;
    idempotency_key = env.idempotency_key inc.id index user ch pass;
    step_index = index;
    target_user = user;
    channel = ch;
    destination = dest;
    body = env.body inc user index;
    title = inc.title;
    severity = inc.severity;
    ack_url = env.ack_link inc user index;
    state = pending;
    attempts = 0;
    next_attempt_at = none;
    last_error = "";
    created_at = now;
    sent_at = none;
  }

  -- One page, or none for a user with no address on the channel.
  unfoldable pub enqueue_one : Time → Incident → ℕ → ℕ → String → Channel → Tx ℕ
  unfolding page
  enqueue_one now inc index pass user ch db = elim (env.destination user ch) [
    | none ↦ ok (0, db)
    | some dest ↦ counted db (enqueue_notification (page now inc index pass user ch dest) db)
  ]

  unfoldable pub enqueue_channels : Time → Incident → ℕ → ℕ → String → List Channel → Tx ℕ
  enqueue_channels now inc index pass user [] = pure 0
  enqueue_channels now inc index pass user (ch ∷ channels) = do
    n ← enqueue_one now inc index pass user ch
    m ← enqueue_channels now inc index pass user channels
    pure (n + m)

  unfoldable pub enqueue_users : Time → Incident → ℕ → ℕ → List Channel → List String → Tx ℕ
  enqueue_users now inc index pass channels [] = pure 0
  enqueue_users now inc index pass channels (user ∷ users) = do
    n ← enqueue_channels now inc index pass user channels
    m ← enqueue_users now inc index pass channels users
    pure (n + m)

  -- A step that nobody is on call for is put on record, and escalation goes on.
  unfoldable pub note_gap : Time → Incident → ℕ → List Target → List String → Tx Unit
  note_gap now inc index targets [] =
      insert_event inc.id EventKind.escalated (nobody_on_call index targets) now
  note_gap now inc index targets (u ∷ users) = pure tt

  -- The next rung, or the wait before the incident expires.
  unfoldable pub schedule_next : Time → Incident → Policy → ℕ → Tx Unit
  unfolding schedule_expiry schedule_step
  schedule_next now inc policy next =
      if exhausted policy next
      then schedule_expiry inc.id policy next now
      else schedule_step inc.id next (now + step_delay (step_at policy next)) now

  unfoldable pub run_step : Time → Incident → Policy → ℕ → Step → ℕ → Tx Unit
  run_step now inc policy index step pass = do
    users ← resolved_users (env.resolve_targets now step.targets)
    note_gap now inc index step.targets users
    enqueued ← enqueue_users now inc index pass step.channels users
    set_current_step inc.id index
    insert_event inc.id EventKind.notified (paged index pass users step.channels enqueued) now
    schedule_next now inc policy (suc index)

  unfoldable pub fire_step : Time → Incident → Policy → ℕ → Tx Unit
  fire_step now inc policy index = elim (step_at policy index) [
    | none ↦ expire inc.id policy now
    | some (step, pass) ↦ run_step now inc policy index step pass
  ]

  -- Escalation starts when the group's window closes.
  unfoldable pub begin : Time → Incident → Policy → Tx Unit
  begin now inc policy = do
    store_snapshot inc.id (encode policy)
    fire_step now (record inc { policy_snapshot = encode policy; current_step = 0 }) policy 0

  unfoldable pub handle_escalate : Time → Timer → Tx Unit
  handle_escalate now t = do
    inc ← load_incident t.incident_id
    if not (is_triggered inc) then pure tt else do
      policy ← lift no_policy (decode_policy inc.policy_snapshot)
      index ← payload_step t.payload
      fire_step now inc policy index

  unfoldable pub handle_ack_timeout : Time → Timer → Tx Unit
  handle_ack_timeout now t = do
    inc ← load_incident t.incident_id
    if not (is_acknowledged inc) then pure tt else do
      policy ← lift no_policy (decode_policy inc.policy_snapshot)
      resume_incident inc.id
      insert_event inc.id EventKind.escalated (ack_elapsed inc.acknowledged_by) now
      fire_step now (record inc { status = triggered }) policy (suc inc.current_step)

-- ─── Acknowledgement ───

unfoldable pub insert_ack : ℕ → String → AckVia → Time → Tx Unit
insert_ack incident_id user via now db =
    if has_incident incident_id db
    then ok (tt, record db { acks = db.acks ++ row ∷ [] })
    else err foreign_key
  where
    row : Ack
    row = record {
      id = next_id (λ (a : Ack). a.id) db.acks;
      incident_id = incident_id;
      user_id = user;
      via = via;
      created_at = stored now;
    }

-- The timer that resumes escalation. A snapshot that does not decode sets none.
unfoldable pub schedule_ack_timeout : ℕ → Option Policy → Time → Tx Unit
schedule_ack_timeout incident_id none now = pure tt
schedule_ack_timeout incident_id (some policy) now = if policy.ack_timeout == 0 then pure tt else do
  insert_timer (record {
    id = 0;
    incident_id = incident_id;
    kind = repeat;
    fire_at = now + policy.ack_timeout;
    payload = Payload.empty;
    created_at = now;
    claimed_at = none;
    completed_at = none;
    cancelled_at = none;
  })
  pure tt

-- The transaction of `Acknowledge`.
unfoldable pub acknowledge : ℕ → String → AckVia → Time → Tx Unit
acknowledge incident_id user via now = do
  took ← acknowledge_incident incident_id now user
  if not took then fail not_acknowledgeable else do
    cancel_incident_timers incident_id now (escalate ∷ [])
    insert_ack incident_id user via now
    inc ← load_incident incident_id
    schedule_ack_timeout incident_id (decode_policy inc.policy_snapshot) now
    insert_event incident_id EventKind.acked (taken user via) now
