-- ===== src/Store/Notifications.antt =====
-- internal/store/notifications.go: the outbox. The idempotency key is the hash of the text in Store/Key;
-- the hash is a parameter.
use kerberon.Base.{
  ℕ, suc, ◌-◌, ◌==◌, String, str_eq, Bool, true, false, not, ◌&&◌, ◌||◌, Option, none, some, List,
  [], ◌∷◌, ◌++◌, take, filter, any, count, if◌then◌else◌, ltb, leb,
}
use kerberon.Base.Sort.{sort}
use kerberon.Core.Time.{Time, Duration, to_unix, stored, stored_opt}
use kerberon.Core.Enums.{
  NotificationState, pending, sending, sent, failed, dead, notification_state_valid, channel_valid,
}
use kerberon.Core.Records.{Notification}
use kerberon.Store.Table.{update, next_id}
use kerberon.Store.Tx.{
  Db, Tx, Error, Result, ok, err, has_incident, invalid_channel, invalid_notification_state,
  requires, foreign_key, unique_violation, duplicate_notification,
}

abbrev pub has_key : String → Notification → Bool
has_key key n = str_eq n.idempotency_key key

-- The INSERT statement alone, with the two constraints that it can meet.
unfoldable pub insert_notification : Notification → Tx ℕ
insert_notification n db =
    if any (has_key n.idempotency_key) db.notifications
    then err unique_violation
    else if has_incident n.incident_id db
    then ok (id, record db { notifications = db.notifications ++ row ∷ [] })
    else err foreign_key
  where
    id : ℕ
    id = next_id (λ (r : Notification). r.id) db.notifications

    row : Notification
    row = record n {
      id = id;
      next_attempt_at = stored_opt n.next_attempt_at;
      last_error = "";
      created_at = stored n.created_at;
      sent_at = none;
    }

-- `isUniqueViolation` looks for "constraint failed" in the driver's message, which the message of a
-- foreign key has too.
abbrev pub is_unique_violation : Error → Bool
is_unique_violation unique_violation = true
is_unique_violation foreign_key = true
is_unique_violation _ = false

abbrev pub or_duplicate : Result (ℕ × Db) → Result (ℕ × Db)
or_duplicate (ok r) = ok r
or_duplicate (err e) = if is_unique_violation e then err duplicate_notification else err e

unfoldable pub enqueue_notification : Notification → Tx ℕ
unfolding insert_notification
enqueue_notification n db =
    if not (channel_valid n.channel)
    then err (invalid_channel n.channel)
    else if not (notification_state_valid n.state)
    then err (invalid_notification_state n.state)
    else if str_eq n.idempotency_key ""
    then err (requires "idempotency key")
    else or_duplicate (insert_notification n db)

abbrev pub waits : NotificationState → Bool
waits pending = true
waits failed = true
waits _ = false

abbrev pub is_sending : NotificationState → Bool
is_sending sending = true
is_sending _ = false

abbrev pub reached : Option Time → Time → Bool
reached none now = true
reached (some t) now = leb (to_unix t) (to_unix now)

-- The WHERE clause of the claim: waiting and due, or in `sending` for as long as the lease.
abbrev pub claimable : Time → Duration → Notification → Bool
claimable now lease n =
    (waits n.state && reached n.next_attempt_at now)
    || (is_sending n.state && leb (to_unix n.created_at) (to_unix (now - lease)))

-- ORDER BY next_attempt_at ASC, id ASC; a null comes first.
abbrev pub attempt_order : Option Time → Option Time → ℕ → ℕ → Bool
attempt_order none none i j = leb i j
attempt_order none (some u) i j = true
attempt_order (some t) none i j = false
attempt_order (some t) (some u) i j =
    ltb (to_unix t) (to_unix u) || (to_unix t == to_unix u && leb i j)

abbrev pub attempted_before : Notification → Notification → Bool
attempted_before a b = attempt_order a.next_attempt_at b.next_attempt_at a.id b.id

abbrev pub claim : Notification → Notification
claim n = record n { state = sending; attempts = suc n.attempts }

abbrev pub notification_is : ℕ → Notification → Bool
notification_is id n = n.id == id

abbrev pub claims : ℕ → Notification → Bool
claims id n = notification_is id n && (waits n.state || is_sending n.state)

-- The loop over the rows found: a row that no longer matches is passed over.
unfoldable pub claim_each :
    List Notification → List Notification → List Notification × List Notification
claim_each [] rows = ([], rows)
claim_each (n ∷ found) rows =
    let (claimed, rows') = claim_each found (update (claims n.id) claim rows) in
    (if count (claims n.id) rows == 0 then claimed else claim n ∷ claimed, rows')

-- The SELECT of the claim; a limit of zero counts as one.
abbrev pub due_pages : Time → Duration → ℕ → List Notification → List Notification
due_pages now lease limit rows =
    take (if limit == 0 then 1 else limit)
      (sort attempted_before (filter (claimable now lease) rows))

unfoldable pub claim_due_notifications : Time → Duration → ℕ → Tx (List Notification)
unfolding claim_each
claim_due_notifications now lease limit db =
    let (claimed, rows) =
      claim_each (due_pages now lease limit db.notifications) db.notifications in
    ok (claimed, record db { notifications = rows })

abbrev pub update_notification : ℕ → (Notification → Notification) → Db → Db
update_notification id f db = record db {
  notifications = update (notification_is id) f db.notifications;
}

abbrev pub as_sent : Time → Notification → Notification
as_sent at n = record n { state = sent; sent_at = some (stored at); last_error = "" }

-- The bound on the error text (`truncateError`) is not modelled: a cause is taken whole.
abbrev pub as_failed : Time → String → Notification → Notification
as_failed retry_at cause n = record n {
  state = failed;
  next_attempt_at = some (stored retry_at);
  last_error = cause;
}

abbrev pub as_dead : String → Notification → Notification
as_dead cause n = record n { state = dead; next_attempt_at = none; last_error = cause }

unfoldable pub mark_notification_sent : ℕ → Time → Tx Unit
mark_notification_sent id at db = ok (tt, update_notification id (as_sent at) db)

unfoldable pub mark_notification_failed : ℕ → Time → String → Tx Unit
mark_notification_failed id retry_at cause db =
    ok (tt, update_notification id (as_failed retry_at cause) db)

unfoldable pub mark_notification_dead : ℕ → String → Tx Unit
mark_notification_dead id cause db = ok (tt, update_notification id (as_dead cause) db)
