-- ===== src/Examples/Histories.antt =====
-- The invariants, over a history: an alert repeats, the scheduler passes, the outbox drains, somebody answers.
use kerberon.Base.{◌*◌, some, ◌≡◌, ◌⊎◌, refl, List, [], ◌∷◌, arith}
use kerberon.Core.Time.{Time, minute}
use kerberon.Core.Enums.{AckVia, IncidentStatus}
use kerberon.Core.Records.{Timer}
use kerberon.Store.Tx.{Db}
use kerberon.Timer.{Scheduler, execute}
use kerberon.Timer.Once.{effect_at_most_once}
use kerberon.Timer.Passes.{RunsOne, Sleeps}
use kerberon.System.{Call, alerts_arrive, scheduler_passes, human_acks, outbox_drains, run, wired}
use kerberon.Invariant.OpenGroup.{OneOpen, run-OneOpen}
use kerberon.Invariant.Closed.{IsClosed, run-IsClosed}
use kerberon.Invariant.Finished.{IsFinished, run-IsFinished-execute}
use kerberon.Invariant.Outbox.{IsKeyed, one_page_per_key}
use kerberon.Invariant.Seconds.{scheduler_keeps_time}
use kerberon.Examples.Data.{config, scheduler, alert, incident, rung_timer, dispatcher, db}

abbrev history : List (Time × Call)
history =
    (91 * minute, alerts_arrive (alert ∷ alert ∷ []))
    ∷ (95 * minute, scheduler_passes)
    ∷ (95 * minute, outbox_drains dispatcher)
    ∷ (96 * minute, human_acks 1 "ann" AckVia.link)
    ∷ []

abbrev start : Scheduler × Db
start = (scheduler, db)

run-OneOpen_example : OneOpen "db/Disk" (run config history start).1.incidents
run-OneOpen_example = run-OneOpen config history start "db/Disk" (omega arith)

abbrev closed_db : Db
closed_db = record db { incidents = record incident { status = IncidentStatus.resolved } ∷ [] }

run-IsClosed_example : IsClosed 1 (run config history (scheduler, closed_db)).1.incidents
run-IsClosed_example =
    run-IsClosed config history (scheduler, closed_db) 1
      (record incident { status = IncidentStatus.resolved }, refl, refl)

abbrev done_timer : Timer
done_timer = record rung_timer { completed_at = some (95 * minute) }

abbrev done_db : Db
done_db = record db { timers = done_timer ∷ [] }

run-IsFinished-execute_example :
    IsFinished 1 (run config history (scheduler, done_db)).1.timers
    × ((execute
          (97 * minute)
          done_timer
          (wired config scheduler)
          (run config history (scheduler, done_db)).1).1
        ≡ (run config history (scheduler, done_db)).1)
run-IsFinished-execute_example =
    run-IsFinished-execute config history (scheduler, done_db) done_timer (97 * minute)
      (wired config scheduler) (done_timer, refl, refl)

db-IsKeyed : IsKeyed config.env db.notifications
db-IsKeyed = record { own = ((0, refl), tt); once = λ key. ground arith }

one_page_per_key_example : IsKeyed config.env (run config history start).1.notifications
one_page_per_key_example = one_page_per_key config history start db-IsKeyed

scheduler_keeps_time_example :
    RunsOne (95 * minute) (wired config (run config history start).0) (run config history start).1
    ⊎ Sleeps (95 * minute) (wired config (run config history start).0) (run config history start).1
scheduler_keeps_time_example = scheduler_keeps_time config history start (95 * minute) (refl, tt)

effect_at_most_once_example :
    ((execute (95 * minute) rung_timer (wired config scheduler) db).1 ≡ db)
    ⊎ ((now : Time) (s : Scheduler)
        → (execute now rung_timer s
            (execute (95 * minute) rung_timer (wired config scheduler) db).1).1
          ≡ (execute (95 * minute) rung_timer (wired config scheduler) db).1)
effect_at_most_once_example =
    effect_at_most_once (95 * minute) rung_timer (wired config scheduler) db
