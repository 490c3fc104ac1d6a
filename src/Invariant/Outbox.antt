-- ===== src/Invariant/Outbox.antt =====
-- The idempotency keys of the outbox.
use kerberon.Base.{
  ℕ, ◌≤◌, String, str_eq, eq_iff, ◌≡◌, refl, ap, ◌∙◌, Bool, true, false, List, [], ◌∷◌, ◌++◌, arith,
  count, any, count-append, All, All-append, if◌then◌else◌, Bool-cases, inl, inr, subst,
}
use kerberon.Core.Time.{Time}
use kerberon.Core.Enums.{Channel}
use kerberon.Core.Records.{Notification, Incident}
use kerberon.Store.Table.{count-any, count-update, All-update, update}
use kerberon.Store.Tx.{Db, Result, ok, err}
use kerberon.Store.Keeps.{Keeps, Ensures, Ensures-if}
use kerberon.Store.Notifications.{
  has_key, notification_is, as_sent, as_failed, as_dead, due_pages, insert_notification,
  enqueue_notification, or_duplicate, claim, claims, claim_each, claim_due_notifications,
  mark_notification_sent, mark_notification_failed, mark_notification_dead,
}
use kerberon.Store.Incidents.{insert_event}
use kerberon.Store.Alerts.{insert_alert}
use kerberon.Escalate.Engine.{Env, page, insert_ack}
use kerberon.Timer.{Scheduler}
use kerberon.System.{Config, Call, run}
use kerberon.Invariant.Primitive.{Primitive, RowStatements, OutboxStatements}
use kerberon.Invariant.Tables.{timers_keep_outbox, incidents_keep_outbox}
use kerberon.Invariant.Calls.{run-Keeps}

abbrev pub OneEach : String → List Notification → Type 0
OneEach key rows = count (has_key key) rows ≤ 1

has_key-same : (n : Notification) (key : String) → has_key key n ≡ true → n.idempotency_key ≡ key
has_key-same n key h = ground (arith, eq_iff n.idempotency_key key)

append-OneEach :
    (key : String) (rows : List Notification) (n : Notification)
    → any (has_key n.idempotency_key) rows ≡ false
    → OneEach key rows
    → OneEach key (rows ++ n ∷ [])
append-OneEach key rows n free one = elim (Bool-cases (has_key key n)) [
  | inl e ↦
      let none_yet : any (has_key key) rows ≡ false =
        subst (λ k. any (has_key k) rows ≡ false) (has_key-same n key e) free in
      ground
        (arith, count-append (has_key key) rows (n ∷ []), count-any (has_key key) rows none_yet)
  | inr e ↦ ground (arith, e, one, count-append (has_key key) rows (n ∷ []))
]

pub or_duplicate-Ensures :
    (P : Db → Type 0) (r : Result (ℕ × Db)) → Ensures P r → Ensures P (or_duplicate r)
or_duplicate-Ensures P (ok r) h = h
or_duplicate-Ensures P (err e) h = ground arith

-- ─── The dispatcher's writes ───

-- A write that leaves alone what a page is for.
pub record Stable (f : Notification → Notification) : Type 0 where
  pub key : (n : Notification) → (f n).idempotency_key ≡ n.idempotency_key
  pub incident : (n : Notification) → (f n).incident_id ≡ n.incident_id
  pub step : (n : Notification) → (f n).step_index ≡ n.step_index
  pub user : (n : Notification) → (f n).target_user ≡ n.target_user
  pub channel : (n : Notification) → (f n).channel ≡ n.channel

module _ (Q : List Notification → Type 0)
    (writing : (rows : List Notification) (p : Notification → Bool)
        (f : Notification → Notification)
      → Stable f
      → Q rows
      → Q (update p f rows)) where
  claim_each-keeps : (found rows : List Notification) → Q rows → Q (claim_each found rows).1
  unfolding claim_each
  claim_each-keeps [] rows q = q
  claim_each-keeps (n ∷ found) rows q = claim_each-keeps found (update (claims n.id) claim rows) (
      writing rows (claims n.id) claim
        (record {
          key = λ m. refl;
          incident = λ m. refl;
          step = λ m. refl;
          user = λ m. refl;
          channel = λ m. refl;
        })
        q)

  pub outbox_statements :
      {env : Env}
      → ((now : Time) (inc : Incident) (index pass : ℕ) (user : String) (ch : Channel)
            (dest : String)
          → Keeps
              (λ db. Q db.notifications)
              (enqueue_notification (page env now inc index pass user ch dest)))
      → OutboxStatements env (λ db. Q db.notifications)
  unfolding claim_due_notifications mark_notification_sent mark_notification_failed
      mark_notification_dead claim_each
  outbox_statements enqueue = record {
    enqueue_keeps = enqueue;
    claim_keeps = λ now lease limit. record {
      at = λ db h. claim_each-keeps (due_pages now lease limit db.notifications) db.notifications h;
    };
    sent_keeps = λ id at. record {
      at = λ db h.
          writing db.notifications (notification_is id) (as_sent at)
            (record {
              key = λ m. refl;
              incident = λ m. refl;
              step = λ m. refl;
              user = λ m. refl;
              channel = λ m. refl;
            })
            h;
    };
    failed_keeps = λ id retry_at cause. record {
      at = λ db h.
          writing db.notifications (notification_is id) (as_failed retry_at cause)
            (record {
              key = λ m. refl;
              incident = λ m. refl;
              step = λ m. refl;
              user = λ m. refl;
              channel = λ m. refl;
            })
            h;
    };
    dead_keeps = λ id cause. record {
      at = λ db h.
          writing db.notifications (notification_is id) (as_dead cause)
            (record {
              key = λ m. refl;
              incident = λ m. refl;
              step = λ m. refl;
              user = λ m. refl;
              channel = λ m. refl;
            })
            h;
    };
  }

-- ─── What a page is for ───

-- The key is that of the page's own incident, rung, user and channel, in some pass.
abbrev pub KeyedBy : Env → Notification → Type 0
KeyedBy env n =
    (pass : ℕ) × (n.idempotency_key
      ≡ env.idempotency_key n.incident_id n.step_index n.target_user n.channel pass)

-- Every page of the outbox has its own key, and none of them comes twice.
pub record IsKeyed (env : Env) (rows : List Notification) : Type 0 where
  pub own : All (KeyedBy env) rows
  pub once : (key : String) → OneEach key rows

module _ (env : Env) where
  write-IsKeyed :
      (rows : List Notification) (p : Notification → Bool) (f : Notification → Notification)
      → Stable f
      → IsKeyed env rows
      → IsKeyed env (update p f rows)
  write-IsKeyed rows p f s k = record {
    own = All-update (KeyedBy env) p f rows (λ n h. kept n (p n) h) k.own;
    once = λ key.
        let same : count (has_key key) (update p f rows) ≡ count (has_key key) rows =
          count-update (has_key key) p f rows (λ n. ap (λ k. str_eq k key) (s.key n)) in
        ground (arith, same, k.once key);
  }
    where
      kept : (n : Notification) (b : Bool) → KeyedBy env n → KeyedBy env (if b then f n else n)
      kept n false h = h
      kept n true (pass, e) =
          (pass, s.key n ∙ e ∙ cc (s.incident n, s.step n, s.user n, s.channel n))

  row-IsKeyed :
      (rows : List Notification) (n : Notification)
      → any (has_key n.idempotency_key) rows ≡ false
      → KeyedBy env n
      → IsKeyed env rows
      → IsKeyed env (rows ++ n ∷ [])
  row-IsKeyed rows n free own k = record {
    own = All-append (KeyedBy env) rows (n ∷ []) k.own (own, tt);
    once = λ key. append-OneEach key rows n free (k.once key);
  }

  insert-IsKeyed :
      (n : Notification)
      → KeyedBy env n
      → Keeps (λ db. IsKeyed env db.notifications) (insert_notification n)
  unfolding insert_notification
  insert-IsKeyed n own = record { at = λ db h. search (Ensures-if, row-IsKeyed) }

  enqueue-IsKeyed :
      (now : Time) (inc : Incident) (index pass : ℕ) (user : String) (ch : Channel) (dest : String)
      → Keeps
          (λ db. IsKeyed env db.notifications)
          (enqueue_notification (page env now inc index pass user ch dest))
  unfolding enqueue_notification page
  enqueue-IsKeyed now inc index pass user ch dest = record {
    at = λ db h.
        let kept =
          (insert-IsKeyed (page env now inc index pass user ch dest) (pass, refl)).at db h in
        search (Ensures-if, or_duplicate-Ensures);
  }

  IsKeyed-rows : RowStatements (λ db. IsKeyed env db.notifications)
  unfolding insert_event insert_alert insert_ack
  IsKeyed-rows = record {
    insert_event_keeps = λ id kind d at. record { at = λ db h. search Ensures-if };
    insert_alert_keeps = λ a. record { at = λ db h. search Ensures-if };
    insert_ack_keeps = λ id user via at. record { at = λ db h. search Ensures-if };
  }

  IsKeyed-Primitive : Primitive env (λ db. IsKeyed env db.notifications)
  IsKeyed-Primitive = record {
    timers = timers_keep_outbox (IsKeyed env);
    incidents = incidents_keep_outbox (IsKeyed env);
    rows = IsKeyed-rows;
    outbox = outbox_statements (IsKeyed env) write-IsKeyed enqueue-IsKeyed;
  }

-- Where every page of the outbox carries the key of its own incident, rung, user and channel, in some pass,
-- and no key comes twice, this is so after any sequence of calls, drains of the outbox included.
pub one_page_per_key :
    (c : Config) (calls : List (Time × Call)) (st : Scheduler × Db)
    → IsKeyed c.env st.1.notifications
    → IsKeyed c.env (run c calls st).1.notifications
one_page_per_key c calls st keyed = run-Keeps c (IsKeyed-Primitive c.env) calls st keyed
