-- ===== src/Invariant/Paged.antt =====
-- Whom a rung pages (`fireStep` of internal/escalate/escalate.go).
use kerberon.Base.{
  ℕ, suc, String, str_eq, ◌≡◌, refl, ◌∙◌, inl, inr, true, some, List, [], ◌∷◌, ◌==◌, any, get_elem?,
  All, All-map, Bool-cases, eq_iff,
}
use kerberon.Core.Time.{Time}
use kerberon.Config.Sound.{All-get_elem?}
use kerberon.Core.Enums.{Channel, channel_valid, EventKind}
use kerberon.Core.Records.{Incident, paged}
use kerberon.Policy.{Policy, Step, step_at}
use kerberon.Store.Tx.{Db, Tx, ok, commit, has_incident, ◌>>=◌, ◌>>◌}
use kerberon.Store.Keeps.{Ensures, Keeps-bind, Keeps-pure}
use kerberon.Store.Leads.{Leads, Leads-after, Leads-before, commit-ensures}
use kerberon.Store.Notifications.{has_key, insert_notification, enqueue_notification}
use kerberon.Store.Incidents.{insert_event, set_current_step}
use kerberon.Escalate.Engine.{
  Env, page, counted, enqueue_one, enqueue_channels, enqueue_users, run_step, fire_step, note_gap,
  schedule_next,
}
use kerberon.Invariant.Primitive.{Primitive, RowStatements, OutboxStatements}
use kerberon.Invariant.Tables.{rows_keep_incidents, outbox_keeps_incidents}
use kerberon.Invariant.Pages.{
  enqueue_one-Keeps, enqueue_channels-Keeps, enqueue_users-Keeps, note_gap-Keeps,
}
use kerberon.Invariant.Engines.{schedule_next-Keeps}
use kerberon.Invariant.Queued.{HasPage, any-append, HasPage-Primitive}

module _ (env : Env) (now : Time) (inc : Incident) (index pass : ℕ) where
  abbrev There : Db → Type 0
  There db = has_incident inc.id db ≡ true

  abbrev pub key_of : String → Channel → String
  key_of user ch = env.idempotency_key inc.id index user ch pass

  abbrev Paged : String → Channel → Db → Type 0
  Paged user ch db = HasPage (key_of user ch) db.notifications

  page-Paged :
      (user : String) (ch : Channel) (dest : String) (db : Db)
      → There db
      → Ensures
          (Paged user ch)
          (counted db (enqueue_notification (page env now inc index pass user ch dest) db))
  unfolding enqueue_notification insert_notification page
  page-Paged user ch dest db there = elim (Bool-cases (channel_valid ch)) [
    | inr e ↦ rw e tt
    | inl e ↦ elim (Bool-cases (str_eq (key_of user ch) "")) [
      | inl f ↦ rw (e, f) tt
      | inr f ↦ elim (Bool-cases (any (has_key (key_of user ch)) db.notifications)) [
        | inl g ↦ rw (e, f, g) g
        | inr g ↦
            let own : str_eq (key_of user ch) (key_of user ch) ≡ true =
              (eq_iff (key_of user ch) (key_of user ch)).1 refl in
            rw (e, f, g, there)
              (any-append (has_key (key_of user ch)) db.notifications _ ∙ rw (g, own) refl)
      ]
    ]
  ]

  enqueue_one-Paged :
      (user : String) (ch : Channel) (dest : String)
      → env.destination user ch ≡ some dest
      → Leads There (Paged user ch) (enqueue_one env now inc index pass user ch)
  unfolding enqueue_one
  enqueue_one-Paged user ch dest found = record {
    at = λ db there. rw (enqueue_one, found) (page-Paged user ch dest db there);
  }

  kept : (user : String) (ch : Channel) → Primitive env (Paged user ch)
  kept user ch = HasPage-Primitive env (key_of user ch)

  incident_rows : RowStatements There
  incident_rows = rows_keep_incidents (λ rows. any (λ (i : Incident). i.id == inc.id) rows ≡ true)

  incident_outbox : OutboxStatements env There
  incident_outbox =
      outbox_keeps_incidents (λ rows. any (λ (i : Incident). i.id == inc.id) rows ≡ true)

  -- A transaction that leaves a page for a user on a channel, where there is an address.
  abbrev Pages : {A : Type 0} → Tx A → String → Channel → Type 0
  Pages m user ch =
      (dest : String) → env.destination user ch ≡ some dest → Leads There (Paged user ch) m

  enqueue_channels-Pages :
      (user : String) (chs : List Channel)
      → All (Pages (enqueue_channels env now inc index pass user chs) user) chs
  unfolding enqueue_channels
  enqueue_channels-Pages user [] = tt
  enqueue_channels-Pages user (ch ∷ chs) = (
    λ dest found. Leads-before _ _ (enqueue_one-Paged user ch dest found) λ n.
        Keeps-bind _ _
          (enqueue_channels-Keeps (kept user ch).rows (kept user ch).outbox now inc index pass user
            chs)
          (λ m. Keeps-pure _),
    All-map (Pages (enqueue_channels env now inc index pass user chs) user)
        (Pages (enqueue_channels env now inc index pass user (ch ∷ chs)) user) chs
        (λ c later dest found.
          Leads-after _ _
            (enqueue_one-Keeps incident_rows incident_outbox now inc index pass user ch)
            λ n. Leads-before _ _ (later dest found) (λ m. Keeps-pure _))
        (enqueue_channels-Pages user chs),
  )

  enqueue_users-Pages :
      (chs : List Channel) (users : List String)
      → All (λ u. All (Pages (enqueue_users env now inc index pass chs users) u) chs) users
  unfolding enqueue_users
  enqueue_users-Pages chs [] = tt
  enqueue_users-Pages chs (user ∷ users) = (
    All-map (Pages (enqueue_channels env now inc index pass user chs) user)
        (Pages (enqueue_users env now inc index pass chs (user ∷ users)) user) chs
        (λ c first dest found. Leads-before _ _ (first dest found) λ n.
          Keeps-bind _ _
            (enqueue_users-Keeps (kept user c).rows (kept user c).outbox now inc index pass chs
              users)
            (λ m. Keeps-pure _))
        (enqueue_channels-Pages user chs),
    All-map (λ u. All (Pages (enqueue_users env now inc index pass chs users) u) chs)
        (λ u. All (Pages (enqueue_users env now inc index pass chs (user ∷ users)) u) chs) users
        (λ u rest.
          All-map (Pages (enqueue_users env now inc index pass chs users) u)
            (Pages (enqueue_users env now inc index pass chs (user ∷ users)) u) chs
            (λ c later dest found.
              Leads-after _ _
                (enqueue_channels-Keeps incident_rows incident_outbox now inc index pass user chs)
                λ n. Leads-before _ _ (later dest found) (λ m. Keeps-pure _))
            rest)
        (enqueue_users-Pages chs users),
  )

  run_step-Pages :
      (policy : Policy) (step : Step) (users : List String) (u : String) (ch : Channel)
      → env.resolve_targets now step.targets ≡ ok users
      → Pages (enqueue_users env now inc index pass step.channels users) u ch
      → Pages (run_step env now inc policy index step pass) u ch
  unfolding run_step
  run_step-Pages policy step users u ch resolved queued dest found = record {
    at = λ db there. rw (run_step, resolved) (rest.at db there);
  }
    where
      open_rows : Primitive env (Paged u ch)
      open_rows = kept u ch

      rest : Leads There (Paged u ch) (do
        note_gap env now inc index step.targets users
        enqueued ← enqueue_users env now inc index pass step.channels users
        set_current_step inc.id index
        insert_event inc.id EventKind.notified (paged index pass users step.channels enqueued) now
        schedule_next env now inc policy (suc index))
      rest =
          Leads-after _ _
            (note_gap-Keeps incident_rows incident_outbox now inc index step.targets users)
            λ g. Leads-before _ _ (queued dest found) λ n.
              Keeps-bind _ _ (open_rows.incidents.set_step_keeps inc.id index) λ x.
                Keeps-bind _ _ (open_rows.rows.insert_event_keeps _ _ _ _)
                  λ y. schedule_next-Keeps open_rows now inc policy (suc index)

-- Where a rung fires and commits, for an incident of the database, every one of the users that its targets
-- resolve to has a page in the outbox on each of the step's channels on which there is an address, under the key
-- of the incident, rung, user, channel and pass.
pub fire_step_reaches_everyone :
    (env : Env) (now : Time) (inc : Incident) (policy : Policy) (index : ℕ) (step : Step) (pass : ℕ)
    (users : List String) (db : Db) (i j : ℕ) (user : String) (ch : Channel) (dest : String)
    → step_at policy index ≡ some (step, pass)
    → env.resolve_targets now step.targets ≡ ok users
    → has_incident inc.id db ≡ true
    → get_elem? users i ≡ some user
    → get_elem? step.channels j ≡ some ch
    → env.destination user ch ≡ some dest
    → (commit (fire_step env now inc policy index) db).0 ≡ ok tt
    → HasPage
        (env.idempotency_key inc.id index user ch pass)
        (commit (fire_step env now inc policy index) db).1.notifications
unfolding fire_step
fire_step_reaches_everyone env now inc policy index step pass users db i j user ch dest at_step
      resolved there named on found done =
    let by_user =
      All-get_elem?
        (λ u.
          All
            (Pages env now inc index pass (enqueue_users env now inc index pass step.channels users)
              u)
            step.channels)
        users i (enqueue_users-Pages env now inc index pass step.channels users) named in
    let queued =
      All-get_elem?
        (Pages env now inc index pass (enqueue_users env now inc index pass step.channels users)
          user)
        step.channels j by_user on in
    let run =
      run_step-Pages env now inc index pass policy step users user ch resolved queued dest found in
    commit-ensures (λ d. HasPage (env.idempotency_key inc.id index user ch pass) d.notifications)
      (fire_step env now inc policy index) db (rw (fire_step, at_step) (run.at db there)) done
