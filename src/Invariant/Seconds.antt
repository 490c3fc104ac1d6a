-- ===== src/Invariant/Seconds.antt =====
-- Every time in the timer table is a whole number of seconds: the statements store it so.
use kerberon.Base.{
  ◌≡◌, refl, ◌⊎◌, Bool, List, [], ◌∷◌, ◌++◌, All, All-append, arith, Bool-cases, inl, inr, ◌&&◌,
}
use kerberon.Core.Time.{Time, stored_idem}
use kerberon.Core.Records.{Timer, is_pending}
use kerberon.Store.Table.{update, All-update}
use kerberon.Store.Tx.{Db}
use kerberon.Store.Keeps.{Ensures-if}
use kerberon.Store.Timers.{
  timer_is, insert_timer, complete_timer, cancel_incident_timers, cancel_incident_timers_except,
  cancels, completed, cancelled,
}
use kerberon.Timer.{Scheduler}
use kerberon.Timer.Batch.{OnTheSecond}
use kerberon.Timer.Passes.{step_runs_or_Sleeps, RunsOne, Sleeps}
use kerberon.System.{Config, Call, run, wired}
use kerberon.Escalate.Engine.{Env}
use kerberon.Invariant.Primitive.{Primitive, TimerStatements}
use kerberon.Invariant.Tables.{incidents_keep_timers, rows_keep_timers, outbox_keeps_timers}
use kerberon.Invariant.Calls.{run-Keeps}

abbrev pub Whole : List Timer → Type 0
Whole ts = All OnTheSecond ts

update-Whole :
    (p : Timer → Bool) (f : Timer → Timer) (ts : List Timer)
    → ((t : Timer) → (f t).fire_at ≡ t.fire_at)
    → Whole ts
    → Whole (update p f ts)
update-Whole p f ts same w =
    All-update OnTheSecond p f ts
      (λ t on. elim (Bool-cases (p t)) [
        | inl e ↦ rw e (ground (arith, same t, on))
        | inr e ↦ rw e on
      ])
      w

append-Whole : (ts : List Timer) (t : Timer) → OnTheSecond t → Whole ts → Whole (ts ++ t ∷ [])
append-Whole ts t on w = All-append OnTheSecond ts (t ∷ []) w (on, tt)

Whole-timers : TimerStatements (λ db. Whole db.timers)
unfolding insert_timer complete_timer cancel_incident_timers cancel_incident_timers_except
Whole-timers = record {
  insert_timer_keeps = λ t. record {
    at = λ db h.
        let added : (row : Timer) → OnTheSecond row → Whole (db.timers ++ row ∷ []) =
          λ row on. append-Whole db.timers row on h in
        search (Ensures-if, added, stored_idem) depth 9;
  };
  complete_timer_keeps = λ i at. record {
    at = λ db h.
        let kept : Whole (update (λ t. timer_is i t && is_pending t) (completed at) db.timers) =
          update-Whole _ (completed at) db.timers (λ t. refl) h in
        search (Ensures-if, kept);
  };
  cancel_keeps = λ i at kinds. record {
    at = λ db h. update-Whole (cancels i 0 kinds) (cancelled at) db.timers (λ t. refl) h;
  };
  cancel_except_keeps = λ i except at kinds. record {
    at = λ db h. update-Whole (cancels i except kinds) (cancelled at) db.timers (λ t. refl) h;
  };
}

Whole-Primitive : {env : Env} → Primitive env (λ db. Whole db.timers)
Whole-Primitive = record {
  timers = Whole-timers;
  incidents = incidents_keep_timers Whole;
  rows = rows_keep_timers Whole;
  outbox = outbox_keeps_timers Whole;
}

-- After any sequence of calls from a database without timers off the second (an empty one, say), every
-- pass of the scheduler executes exactly one timer, which is pending, due and not backing off, or
-- changes nothing and ends its sleep before any of the 16 earliest pending timers is ready.
pub scheduler_keeps_time :
    (c : Config) (calls : List (Time × Call)) (st : Scheduler × Db) (now : Time)
    → Whole st.1.timers
    → RunsOne now (wired c (run c calls st).0) (run c calls st).1
      ⊎ Sleeps now (wired c (run c calls st).0) (run c calls st).1
scheduler_keeps_time c calls st now w =
    step_runs_or_Sleeps now (wired c (run c calls st).0) (run c calls st).1
      (run-Keeps c Whole-Primitive calls st w)
