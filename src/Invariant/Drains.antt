-- ===== src/Invariant/Drains.antt =====
-- What the statements on the outbox keep, a drain of it keeps (`DrainOnce` of
-- internal/notify/dispatcher.go).
use kerberon.Base.{
  ℕ, ◌+◌, ◌≡◌, refl, sym, subst, length, String, Bool, true, false, not, ◌&&◌, Option, none, some,
  List, [], ◌∷◌, leb, Bool-cases, inl, inr,
}
use kerberon.Core.Time.{Time}
use kerberon.Core.Records.{Notification}
use kerberon.Store.Tx.{Db, Tx, Result, ok, err, commit}
use kerberon.Store.Keeps.{Keeps, Keeps-pure, Keeps-bind, commit-Keeps}
use kerberon.Store.Notifications.{claim_due_notifications}
use kerberon.Notify.Breaker.{allow}
use kerberon.Notify.Dispatcher.{
  Dispatcher, Message, Outcome, delivered, refused, backoff, dead_letter, fail_delivery, conclude,
  attempt, deliver, deliver_each, drain_once, message,
}
use kerberon.Escalate.Engine.{Env}
use kerberon.Invariant.Primitive.{OutboxStatements}

abbrev pub HookKeeps : (Db → Type 0) → Option (Notification → Tx Unit) → Type 0
HookKeeps P none = Unit
HookKeeps P (some hook) = (n : Notification) → Keeps P (hook n)

module _ {env : Env} {P : Db → Type 0} (keep : OutboxStatements env P) where
  hook-Keeps :
      (o : Option (Notification → Tx Unit)) (n : Notification)
      → HookKeeps P o
      → Keeps P (dead_letter o n)
  hook-Keeps none n h = Keeps-pure tt
  hook-Keeps (some hook) n h = h n

  fail_delivery-Keeps :
      (now : Time) (n : Notification) (cause : String) (retryable : Bool) (d : Dispatcher) (db : Db)
      → HookKeeps P d.on_dead_letter
      → P db
      → P (fail_delivery now n cause retryable d db)
  unfolding fail_delivery
  fail_delivery-Keeps now n cause retryable d db h p =
      elim (Bool-cases (retryable && not (leb d.max_attempts n.attempts))) [
        | inl e ↦
            rw e (
              commit-Keeps _ (keep.failed_keeps n.id (now + backoff n.attempts d.jitter) cause) db
                p)
        | inr e ↦ rw e (
            commit-Keeps _
              (Keeps-bind _ _ (keep.dead_keeps n.id cause) (λ _. hook-Keeps d.on_dead_letter n h))
              db p)
      ]

  conclude-Keeps :
      (now : Time) (d : Dispatcher) (n : Notification) (db : Db) (o : Outcome)
      → HookKeeps P d.on_dead_letter
      → P db
      → (P (conclude now d n db o).1)
        × ((conclude now d n db o).0.on_dead_letter ≡ d.on_dead_letter)
  unfolding conclude
  conclude-Keeps now d n db delivered h p = (commit-Keeps _ (keep.sent_keeps n.id now) db p, refl)
  conclude-Keeps now d n db (refused cause retryable) h p =
      (fail_delivery-Keeps now n cause retryable d db h p, refl)

  attempt-Keeps :
      (now : Time) (d : Dispatcher) (n : Notification) (db : Db) (o : Option (Message → Outcome))
      → HookKeeps P d.on_dead_letter
      → P db
      → (P (attempt now d n db o).1) × ((attempt now d n db o).0.on_dead_letter ≡ d.on_dead_letter)
  unfolding attempt
  attempt-Keeps now d n db none h p =
      (fail_delivery-Keeps now n "no channel registered" false d db h p, refl)
  attempt-Keeps now d n db (some send) h p = elim (Bool-cases (allow now n.channel d.breaker)) [
    | inl e ↦ rw e (conclude-Keeps now d n db (send (message n)) h p)
    | inr e ↦ rw e (fail_delivery-Keeps now n "circuit breaker is open" true d db h p, refl)
  ]

  deliver_each-Keeps :
      (now : Time) (batch : List Notification) (d : Dispatcher) (db : Db)
      → HookKeeps P d.on_dead_letter
      → P db
      → P (deliver_each now batch d db).1
  unfolding deliver_each deliver
  deliver_each-Keeps now [] d db h p = p
  deliver_each-Keeps now (n ∷ batch) d db h p =
      let (q, same) = attempt-Keeps now d n db (d.channels n.channel) h p in
      deliver_each-Keeps now batch (deliver now d n db).0 (deliver now d n db).1
        (subst (HookKeeps P) (sym same) h) q

  pub drain_once-Keeps :
      (now : Time) (d : Dispatcher) (db : Db)
      → HookKeeps P d.on_dead_letter
      → P db
      → P (drain_once now d db).1.1
  unfolding drain_once
  drain_once-Keeps now d db h p =
      by_result (commit (claim_due_notifications now d.lease d.workers) db)
        (commit-Keeps _ (keep.claim_keeps now d.lease d.workers) db p)
    where
      by_result :
          (o : Result (List Notification) × Db)
          → P o.1
          → P
              (elim o.0 as (λ r. ℕ × (Dispatcher × Db)) [
                | err e ↦ (0, (d, o.1))
                | ok batch ↦ (length batch, deliver_each now batch d o.1)
              ]).1.1
      by_result (err e, db') q = q
      by_result (ok batch, db') q = deliver_each-Keeps now batch d db' h q
