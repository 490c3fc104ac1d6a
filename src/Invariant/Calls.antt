-- ===== src/Invariant/Calls.antt =====
-- From the engines to the program: a property that the statements keep holds after any history of
-- calls, whatever they are and in whatever order.
use kerberon.Base.{ℕ, Option, none, some, List, [], ◌∷◌, arith}
use kerberon.Core.Time.{Time}
use kerberon.Core.Enums.{EventKind, TimerKind, escalate, group_wait, resolve_timeout, repeat}
use kerberon.Core.Records.{Incident, Timer, undelivered}
use kerberon.Policy.{Policy}
use kerberon.Store.Tx.{Db, Tx, Result, ok, err, pure, commit}
use kerberon.Store.Keeps.{Keeps, Ensures, keeps_rules, Keeps-pure, commit-Keeps}
use kerberon.Store.Timers.{next_pending_timers, complete_timer}
use kerberon.Timer.{
  Handler, Scheduler, tick, execute, step, choose, Choice, fire, idle, batch_size, settle, defer,
  name_self_cancelled,
}
use kerberon.System.{
  Config, find_policy, on_page, handlers, group_env, Call, alerts_arrive, scheduler_passes,
  human_acks, human_resolves, outbox_drains, on_dead_letter, wired_dispatcher, handle, run, wired,
}
use kerberon.Escalate.Engine.{Env, begin}
use kerberon.Invariant.Drains.{HookKeeps, drain_once-Keeps}
use kerberon.Invariant.Primitive.{Primitive, load_pending_timer-Keeps}
use kerberon.Invariant.Engines.{
  begin-Keeps, handle_escalate-Keeps, handle_ack_timeout-Keeps, acknowledge-Keeps, resolve-Keeps,
}
use kerberon.Invariant.Groups.{handle_group_wait-Keeps, handle_resolve_timeout-Keeps, ingest-Keeps}

-- A handler keeps `P` whenever it is called.
abbrev HandlerKeeps : (Db → Type 0) → Option Handler → Type 0
HandlerKeeps P none = Unit
HandlerKeeps P (some h) = (now : Time) (t : Timer) → Keeps P (h now t)

module _ {env : Env} {P : Db → Type 0} (keep : Primitive env P) where
  open keep.timers use {complete_timer_keeps}

  name_self_cancelled-Keeps :
      {A : Type 0} (r : Result (A × Db)) → Ensures P r → Ensures P (name_self_cancelled r)
  name_self_cancelled-Keeps (ok r) h = h
  name_self_cancelled-Keeps (err e) h = ground arith

  mark-Keeps :
      (now : Time) (id : ℕ) → Keeps P (λ db. name_self_cancelled (complete_timer id now db))
  mark-Keeps now id = record {
    at = λ db h. name_self_cancelled-Keeps _ ((complete_timer_keeps id now).at db h);
  }

  tick-Keeps :
      (h : Handler) (now : Time) (id : ℕ)
      → ((now : Time) (t : Timer) → Keeps P (h now t))
      → Keeps P (tick h now id)
  unfolding tick
  tick-Keeps h now id k = search (keeps_rules, load_pending_timer-Keeps P, k, mark-Keeps)

  execute-Keeps :
      (now : Time) (t : Timer) (s : Scheduler) (db : Db)
      → HandlerKeeps P (s.handlers t.kind)
      → P db
      → P (execute now t s db).1
  unfolding execute
  execute-Keeps now t s db k p = by_handler (s.handlers t.kind) k
    where
      by_handler :
          (o : Option Handler)
          → HandlerKeeps P o
          → P
              (elim o as (λ o. Scheduler × Db) [
                | none ↦ (defer t.id now s, db)
                | some h ↦ let (r, db') = commit (tick h now t.id) db in (settle t.id now r s, db')
              ]).1
      by_handler none u = p
      by_handler (some h) k' = commit-Keeps (tick h now t.id) (tick-Keeps h now t.id k') db p

  step-Keeps :
      (now : Time) (s : Scheduler) (db : Db)
      → ((kind : TimerKind) → HandlerKeeps P (s.handlers kind))
      → P db
      → P (step now s db).1.1
  unfolding step
  step-Keeps now s db k p =
      by_choice (choose s.retry_after now s.opts.max_idle_wait (next_pending_timers db batch_size))
    where
      by_choice :
          (c : Choice)
          → P
              (elim c as (λ c. ℕ × (Scheduler × Db)) [
                | idle wait ↦ (wait, (s, db))
                | fire t ↦ (0, execute now t s db)
              ]).1.1
      by_choice (idle wait) = p
      by_choice (fire t) = execute-Keeps now t s db (k t.kind) p

module _ {P : Db → Type 0} (c : Config) (keep : Primitive c.env P) where
  page-Keeps : (now : Time) (inc : Incident) → Keeps P (on_page c now inc)
  unfolding on_page
  page-Keeps now inc = by_policy (find_policy inc.policy c.policies)
    where
      by_policy :
          (o : Option Policy)
          → Keeps P (elim o as (λ o. Tx Unit) [
            | none ↦ pure tt
            | some policy ↦ begin c.env now inc policy
          ])
      by_policy none = Keeps-pure tt
      by_policy (some policy) = begin-Keeps keep now inc policy

  handlers-keep : (kind : TimerKind) → HandlerKeeps P (handlers c kind)
  unfolding handlers
  handlers-keep escalate = handle_escalate-Keeps keep
  handlers-keep repeat = handle_ack_timeout-Keeps keep
  handlers-keep group_wait = handle_group_wait-Keeps keep (group_env c) page-Keeps
  handlers-keep resolve_timeout = handle_resolve_timeout-Keeps keep
  handlers-keep (TimerKind.other s) = tt

  -- One call, whichever it is, keeps what the statements keep.
  pub handle-Keeps :
      (now : Time) (call : Call) (st : Scheduler × Db) → P st.1 → P (handle c now call st).1
  unfolding handle on_dead_letter
  handle-Keeps now (alerts_arrive alerts) (s, db) p =
      ingest-Keeps keep (group_env c) now c.routes alerts db p
  handle-Keeps now scheduler_passes (s, db) p = step-Keeps keep now (wired c s) db handlers-keep p
  handle-Keeps now (human_acks id user via) (s, db) p =
      commit-Keeps _ (acknowledge-Keeps keep id user via now) db p
  handle-Keeps now (human_resolves id user) (s, db) p =
      commit-Keeps _ (resolve-Keeps keep id user now) db p
  handle-Keeps now (outbox_drains d) (s, db) p =
      drain_once-Keeps keep.outbox now (wired_dispatcher now d) db hook p
    where
      hook : HookKeeps P (some (on_dead_letter now))
      hook n =
          keep.rows.insert_event_keeps n.incident_id EventKind.notified
            (undelivered n.channel n.target_user n.last_error) now

  -- So does any history.
  pub run-Keeps : (calls : List (Time × Call)) (st : Scheduler × Db) → P st.1 → P (run c calls st).1
  unfolding run
  run-Keeps [] st p = p
  run-Keeps ((now, call) ∷ calls) st p =
      run-Keeps calls (handle c now call st) (handle-Keeps now call st p)
