-- ===== src/Invariant/Pages.antt =====
-- What the statements on rows keep, the paging of a step keeps.
use kerberon.Base.{ℕ, String, Option, none, some, List, [], ◌∷◌, arith}
use kerberon.Core.Time.{Time}
use kerberon.Core.Enums.{Channel}
use kerberon.Core.Records.{Incident}
use kerberon.Policy.{Target}
use kerberon.Store.Tx.{Db, Result, ok, err}
use kerberon.Store.Notifications.{enqueue_notification}
use kerberon.Store.Keeps.{Keeps, Ensures, keeps_rules, Keeps-bind, Keeps-pure}
use kerberon.Escalate.Engine.{
  Env, page, counted, enqueue_one, enqueue_channels, enqueue_users, note_gap, resolved_users,
}
use kerberon.Invariant.Primitive.{RowStatements, OutboxStatements}

module _ {P : Db → Type 0} where
  pub resolved_users-Keeps : (r : Result (List String)) → Keeps P (resolved_users r)
  resolved_users-Keeps (ok users) = search keeps_rules
  resolved_users-Keeps (err e) = search keeps_rules

  module _ {env : Env} (rows : RowStatements P) (outbox : OutboxStatements env P) where
    counted-Keeps : (db : Db) (r : Result (ℕ × Db)) → P db → Ensures P r → Ensures P (counted db r)
    counted-Keeps db (ok r) h e = e
    counted-Keeps db (err e) h t = ground arith

    pub enqueue_one-Keeps :
        (now : Time) (inc : Incident) (index pass : ℕ) (user : String) (ch : Channel)
        → Keeps P (enqueue_one env now inc index pass user ch)
    unfolding enqueue_one
    enqueue_one-Keeps now inc index pass user ch = record {
      at = λ db h. by_destination db h (env.destination user ch);
    }
      where
        by_destination :
            (db : Db)
            → P db
            → (o : Option String)
            → Ensures {A = ℕ} P (elim o [
              | none ↦ ok (0, db)
              | some dest ↦
                  counted db (enqueue_notification (page env now inc index pass user ch dest) db)
            ])
        by_destination db h none = h
        by_destination db h (some dest) =
            counted-Keeps db _ h ((outbox.enqueue_keeps now inc index pass user ch dest).at db h)

    pub enqueue_channels-Keeps :
        (now : Time) (inc : Incident) (index pass : ℕ) (user : String) (chs : List Channel)
        → Keeps P (enqueue_channels env now inc index pass user chs)
    unfolding enqueue_channels
    enqueue_channels-Keeps now inc index pass user [] = search keeps_rules
    enqueue_channels-Keeps now inc index pass user (ch ∷ chs) =
        Keeps-bind _ _ (enqueue_one-Keeps now inc index pass user ch) λ n.
          Keeps-bind _ _ (enqueue_channels-Keeps now inc index pass user chs) (λ m. Keeps-pure _)

    pub enqueue_users-Keeps :
        (now : Time) (inc : Incident) (index pass : ℕ) (chs : List Channel) (users : List String)
        → Keeps P (enqueue_users env now inc index pass chs users)
    unfolding enqueue_users
    enqueue_users-Keeps now inc index pass chs [] = search keeps_rules
    enqueue_users-Keeps now inc index pass chs (u ∷ users) =
        Keeps-bind _ _ (enqueue_channels-Keeps now inc index pass u chs)
          λ n. Keeps-bind _ _ (enqueue_users-Keeps now inc index pass chs users) (λ m. Keeps-pure _)

    pub note_gap-Keeps :
        (now : Time) (inc : Incident) (index : ℕ) (ts : List Target) (users : List String)
        → Keeps P (note_gap env now inc index ts users)
    unfolding note_gap
    note_gap-Keeps now inc index ts [] = rows.insert_event_keeps _ _ _ _
    note_gap-Keeps now inc index ts (u ∷ users) = search keeps_rules
