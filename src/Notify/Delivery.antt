-- ===== src/Notify/Delivery.antt =====
-- What becomes of a page that was claimed (internal/notify/dispatcher.go), with the dead-letter hook of
-- cmd/kerberon/main.go.
use kerberon.Base.{
  ◌+◌, ◌≡◌, refl, ap, ◌∙◌, inl, inr, ◌&&◌, String, Bool, true, false, not, Option, none, some, leb,
  ltb, arith, find, Bool-cases, if◌then◌else◌,
}
use kerberon.Core.Time.{Time}
use kerberon.Core.Records.{Notification}
use kerberon.Store.Table.{update, find-update, find-true, map_opt}
use kerberon.Store.Tx.{Db, ◌>>◌, commit, has_incident}
use kerberon.Store.Incidents.{insert_event}
use kerberon.Store.Notifications.{
  notification_is, as_sent, as_failed, as_dead, mark_notification_sent, mark_notification_failed,
  mark_notification_dead,
}
use kerberon.Notify.Breaker.{allow}
use kerberon.Notify.Dispatcher.{
  Dispatcher, Message, Outcome, delivered, refused, backoff, fail_delivery, deliver, conclude,
  attempt, state_after, message,
}
use kerberon.System.{on_dead_letter, wired_dispatcher}

-- Why a page did not go out, and whether another attempt can help; `none` where it did.
abbrev reason : Outcome → Option (String × Bool)
reason delivered = none
reason (refused cause retryable) = some (cause, retryable)

abbrev verdict_by :
    Time → Dispatcher → Notification → Option (Message → Outcome) → Option (String × Bool)
verdict_by now d n none = some ("no channel registered", false)
verdict_by now d n (some send) =
    if allow now n.channel d.breaker
    then reason (send (message n))
    else some ("circuit breaker is open", true)

abbrev pub verdict : Time → Dispatcher → Notification → Option (String × Bool)
verdict now d n = verdict_by now d n (d.channels n.channel)

-- The row that is left: sent; failed, where another attempt can help and is left, with the backoff's time for
-- it; and dead otherwise.
abbrev pub settled :
    Time → Dispatcher → Notification → Option (String × Bool) → Notification → Notification
settled now d n none = as_sent now
settled now d n (some (cause, retryable)) =
    if retryable && ltb n.attempts d.max_attempts
    then as_failed (now + backoff n.attempts d.jitter) cause
    else as_dead cause

module _ (now : Time) (n : Notification) (db : Db)
    (there : has_incident n.incident_id db ≡ true) where
  -- The hook of a page whose incident is in the database commits, and leaves the outbox alone.
  dead_and_noted :
      (cause : String)
      → (state_after
          (commit (do mark_notification_dead n.id cause; on_dead_letter now n) db)).notifications
        ≡ update (notification_is n.id) (as_dead cause) db.notifications
  unfolding commit mark_notification_dead on_dead_letter insert_event
  dead_and_noted cause = rw there refl

  fail-settled :
      (d : Dispatcher) (cause : String) (retryable : Bool)
      → (fail_delivery now n cause retryable (wired_dispatcher now d) db).notifications
        ≡ update (notification_is n.id) (settled now d n (some (cause, retryable))) db.notifications
  unfolding fail_delivery commit mark_notification_failed
  fail-settled d cause retryable =
      elim (Bool-cases (retryable && not (leb d.max_attempts n.attempts))) [
        | inl e ↦
            let again : (retryable && ltb n.attempts d.max_attempts) ≡ true = ground (arith, e) in
            rw (e, again, fail_delivery) refl
        | inr e ↦
            let over : (retryable && ltb n.attempts d.max_attempts) ≡ false = ground (arith, e) in
            rw (e, over, fail_delivery) (dead_and_noted cause)
      ]

  conclude-settled :
      (d : Dispatcher) (o : Outcome)
      → (conclude now (wired_dispatcher now d) n db o).1.notifications
        ≡ update (notification_is n.id) (settled now d n (reason o)) db.notifications
  unfolding conclude commit mark_notification_sent
  conclude-settled d delivered = refl
  conclude-settled d (refused cause retryable) = fail-settled d cause retryable

  attempt-settled :
      (d : Dispatcher) (o : Option (Message → Outcome))
      → (attempt now (wired_dispatcher now d) n db o).1.notifications
        ≡ update (notification_is n.id) (settled now d n (verdict_by now d n o)) db.notifications
  unfolding attempt
  attempt-settled d none = fail-settled d "no channel registered" false
  attempt-settled d (some send) = elim (Bool-cases (allow now n.channel d.breaker)) [
    | inl e ↦ rw (e, attempt) (conclude-settled d (send (message n)))
    | inr e ↦ rw (e, attempt) (fail-settled d "circuit breaker is open" true)
  ]

-- Where the incident of a page is in the database, an attempt with the program's dead-letter hook rewrites
-- the row of the page and no other of the outbox. It is sent where the channel took it; failed, with the
-- backoff's time for the next attempt, where another attempt can help and is left; and dead otherwise.
pub attempt_settles :
    (now : Time) (d : Dispatcher) (n : Notification) (db : Db)
    → has_incident n.incident_id db ≡ true
    → ((deliver now (wired_dispatcher now d) n db).1.notifications
        ≡ update (notification_is n.id) (settled now d n (verdict now d n)) db.notifications)
      × ((row : Notification)
          → find (notification_is n.id) db.notifications ≡ some row
          → find (notification_is n.id) (deliver now (wired_dispatcher now d) n db).1.notifications
            ≡ some (settled now d n (verdict now d n) row))
unfolding deliver
attempt_settles now d n db there = (whole, one)
  where
    whole :
        (deliver now (wired_dispatcher now d) n db).1.notifications
        ≡ update (notification_is n.id) (settled now d n (verdict now d n)) db.notifications
    whole = attempt-settled now n db there d (d.channels n.channel)

    same_id :
        (v : Option (String × Bool)) (m : Notification)
        → notification_is n.id (settled now d n v m) ≡ notification_is n.id m
    same_id none m = refl
    same_id (some (cause, retryable)) m =
        elim (Bool-cases (retryable && ltb n.attempts d.max_attempts)) [
          | inl e ↦ rw e refl
          | inr e ↦ rw e refl
        ]

    one :
        (row : Notification)
        → find (notification_is n.id) db.notifications ≡ some row
        → find (notification_is n.id) (deliver now (wired_dispatcher now d) n db).1.notifications
          ≡ some (settled now d n (verdict now d n) row)
    one row found =
        let mine : notification_is n.id row ≡ true =
          find-true (notification_is n.id) db.notifications found in
        ap (find (notification_is n.id)) whole
        ∙ find-update (notification_is n.id) (notification_is n.id)
            (settled now d n (verdict now d n)) db.notifications (same_id (verdict now d n))
        ∙ ap
            (map_opt
              (λ r. if notification_is n.id r then settled now d n (verdict now d n) r else r))
            found
        ∙ ap some (rw mine refl)
