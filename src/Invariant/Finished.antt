-- ===== src/Invariant/Finished.antt =====
-- A timer that was completed or cancelled stays so, and the scheduler never runs it again.
use kerberon.Base.{
  ℕ, ◌≡◌, refl, Bool, false, some, List, [], ◌∷◌, ◌++◌, arith, find, ◌&&◌, ap, ◌∙◌, if◌then◌else◌,
}
use kerberon.Core.Time.{Time}
use kerberon.Core.Records.{Timer, is_pending}
use kerberon.Store.Table.{update, find-append, find-update, map_opt}
use kerberon.Store.Tx.{Db, err, timer_not_pending}
use kerberon.Store.Keeps.{Ensures-if}
use kerberon.Store.Timers.{
  timer_is, insert_timer, complete_timer, cancel_incident_timers, cancel_incident_timers_except,
  cancels, completed, cancelled, load_pending_timer,
}
use kerberon.Timer.{Scheduler, execute}
use kerberon.Timer.Once.{refused-execute}
use kerberon.System.{Config, Call, run}
use kerberon.Escalate.Engine.{Env}
use kerberon.Invariant.Primitive.{Primitive, TimerStatements}
use kerberon.Invariant.Tables.{incidents_keep_timers, rows_keep_timers, outbox_keeps_timers}
use kerberon.Invariant.Calls.{run-Keeps}

-- The timer with the id is there, and not pending.
abbrev pub IsFinished : ℕ → List Timer → Type 0
IsFinished id rows = (t : Timer) × (find (timer_is id) rows ≡ some t) × (is_pending t ≡ false)

append-IsFinished :
    (id : ℕ) (rows : List Timer) (t : Timer) → IsFinished id rows → IsFinished id (rows ++ t ∷ [])
append-IsFinished id rows t (r, found, done) =
    (r, find-append (timer_is id) rows (t ∷ []) found, done)

-- The two writes set a time, and so finish what they touch.
update-IsFinished :
    (id : ℕ) (rows : List Timer) (p : Timer → Bool) (f : Timer → Timer)
    → ((t : Timer) → timer_is id (f t) ≡ timer_is id t)
    → ((t : Timer) → is_pending (f t) ≡ false)
    → IsFinished id rows
    → IsFinished id (update p f rows)
update-IsFinished id rows p f same gone (r, found, done) = (
  if p r then f r else r,
  find-update (timer_is id) p f rows same ∙ ap (map_opt (λ r. if p r then f r else r)) found,
  ground (arith, gone r, done),
)

completed-is_pending : (at : Time) (t : Timer) → is_pending (completed at t) ≡ false
completed-is_pending at t = refl

cancelled-is_pending : (at : Time) (t : Timer) → is_pending (cancelled at t) ≡ false
cancelled-is_pending at t = ground arith

IsFinished-timers : (id : ℕ) → TimerStatements (λ db. IsFinished id db.timers)
unfolding insert_timer complete_timer cancel_incident_timers cancel_incident_timers_except
IsFinished-timers id = record {
  insert_timer_keeps = λ t. record { at = λ db h. search (Ensures-if, append-IsFinished) };
  complete_timer_keeps = λ i at. record {
    at = λ db h.
        let done : IsFinished id
            (update (λ t. timer_is i t && is_pending t) (completed at) db.timers) =
          update-IsFinished id db.timers _ (completed at) (λ t. refl) (completed-is_pending at) h in
        search (Ensures-if, done);
  };
  cancel_keeps = λ i at kinds. record {
    at = λ db h.
        update-IsFinished id db.timers (cancels i 0 kinds) (cancelled at) (λ t. refl)
          (cancelled-is_pending at) h;
  };
  cancel_except_keeps = λ i except at kinds. record {
    at = λ db h.
        update-IsFinished id db.timers (cancels i except kinds) (cancelled at) (λ t. refl)
          (cancelled-is_pending at) h;
  };
}

IsFinished-Primitive : {env : Env} → (id : ℕ) → Primitive env (λ db. IsFinished id db.timers)
IsFinished-Primitive id = record {
  timers = IsFinished-timers id;
  incidents = incidents_keep_timers (IsFinished id);
  rows = rows_keep_timers (IsFinished id);
  outbox = outbox_keeps_timers (IsFinished id);
}

finished-load :
    (id : ℕ) (db : Db) → IsFinished id db.timers → load_pending_timer id db ≡ err timer_not_pending
unfolding load_pending_timer
finished-load id db (t, found, done) = ground (arith, found, done)

-- A timer that is completed or cancelled stays so after any sequence of calls, and executing it then
-- changes nothing in the database, whatever the handler and whatever the instant. So an effect that was
-- committed is not committed again, and one that was cancelled never is.
pub run-IsFinished-execute :
    (c : Config) (calls : List (Time × Call)) (st : Scheduler × Db) (t : Timer) (now : Time)
    (s : Scheduler)
    → IsFinished t.id st.1.timers
    → IsFinished t.id (run c calls st).1.timers
      × ((execute now t s (run c calls st).1).1 ≡ (run c calls st).1)
run-IsFinished-execute c calls st t now s f =
    let still = run-Keeps c (IsFinished-Primitive t.id) calls st f in
    (still, refused-execute now t s (run c calls st).1 (finished-load t.id _ still))
