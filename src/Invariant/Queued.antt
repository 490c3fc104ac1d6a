-- ===== src/Invariant/Queued.antt =====
-- A page stays in the outbox (internal/store/notifications.go).
use kerberon.Base.{String, str_eq, ◌≡◌, ap, ◌∙◌, Bool, true, ◌||◌, List, [], ◌∷◌, ◌++◌, any, arith}
use kerberon.Core.Records.{Notification}
use kerberon.Store.Table.{any-update}
use kerberon.Store.Keeps.{Keeps, Ensures-if}
use kerberon.Store.Notifications.{has_key, insert_notification, enqueue_notification}
use kerberon.Store.Incidents.{insert_event}
use kerberon.Store.Alerts.{insert_alert}
use kerberon.Escalate.Engine.{Env, page, insert_ack}
use kerberon.Invariant.Primitive.{Primitive, RowStatements}
use kerberon.Invariant.Tables.{timers_keep_outbox, incidents_keep_outbox}
use kerberon.Invariant.Outbox.{outbox_statements, or_duplicate-Ensures}

-- A page with the key is in the outbox, whatever has become of it.
abbrev pub HasPage : String → List Notification → Type 0
HasPage key rows = any (has_key key) rows ≡ true

pub any-append :
    (q : Notification → Bool) (rows : List Notification) (n : Notification)
    → any q (rows ++ n ∷ []) ≡ (any q rows || q n)
any-append q [] n = ground arith
any-append q (r ∷ rows) n = ground (arith, any-append q rows n)

module _ (env : Env) (key : String) where
  still_there :
      (rows : List Notification) (n : Notification)
      → HasPage key rows
      → HasPage key (rows ++ n ∷ [])
  still_there rows n h = ground (arith, any-append (has_key key) rows n)

  insert-HasPage :
      (n : Notification) → Keeps (λ db. HasPage key db.notifications) (insert_notification n)
  unfolding insert_notification
  insert-HasPage n = record { at = λ db h. search (Ensures-if, still_there) }

  enqueue-HasPage :
      (n : Notification) → Keeps (λ db. HasPage key db.notifications) (enqueue_notification n)
  unfolding enqueue_notification
  enqueue-HasPage n = record {
    at = λ db h. let kept = (insert-HasPage n).at db h in search (Ensures-if, or_duplicate-Ensures);
  }

  HasPage-rows : RowStatements (λ db. HasPage key db.notifications)
  unfolding insert_event insert_alert insert_ack
  HasPage-rows = record {
    insert_event_keeps = λ id kind d at. record { at = λ db h. search Ensures-if };
    insert_alert_keeps = λ a. record { at = λ db h. search Ensures-if };
    insert_ack_keeps = λ id user via at. record { at = λ db h. search Ensures-if };
  }

  pub HasPage-Primitive : Primitive env (λ db. HasPage key db.notifications)
  HasPage-Primitive = record {
    timers = timers_keep_outbox (HasPage key);
    incidents = incidents_keep_outbox (HasPage key);
    rows = HasPage-rows;
    outbox =
        outbox_statements (HasPage key)
          (λ rows p f s h.
            any-update (has_key key) p f rows (λ n. ap (λ k. str_eq k key) (s.key n)) ∙ h)
          (λ now inc index pass user ch dest.
            enqueue-HasPage (page env now inc index pass user ch dest));
  }
