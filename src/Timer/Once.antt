-- ===== src/Timer/Once.antt =====
-- The transaction of a timer: all of its effect and the mark, or nothing; and at most once.
use kerberon.Base.{
  ℕ, ◌≡◌, ◌⊎◌, inl, inr, refl, subst, ◌∙◌, ap, Bool, true, false, Option, none, some, List, [], ◌∷◌,
  arith, find, ◌&&◌, count, Option-cases, Bool-cases,
}
use kerberon.Core.Time.{Time}
use kerberon.Core.Records.{Timer, is_pending}
use kerberon.Store.Table.{count-update-zero, find-true}
use kerberon.Store.Tx.{Db, Tx, Result, err, ok, commit, timer_not_pending, continue, outcome}
use kerberon.Store.Timers.{timer_is, complete_timer, completed, load_pending_timer}
use kerberon.Timer.{Scheduler, Handler, tick, execute, settle, defer, name_self_cancelled}

abbrev pub pending_row : ℕ → Timer → Bool
pending_row id t = timer_is id t && is_pending t

-- No row with the id is pending.
abbrev pub IsOver : ℕ → Db → Type 0
IsOver id db = count (pending_row id) db.timers ≡ 0

-- The database of a commit satisfies the predicate.
abbrev Commits : (Db → Type 0) → {A : Type 0} → Result (A × Db) → Type 0
Commits P (ok (a, db)) = P db
Commits P (err e) = Unit

complete-IsOver : (id : ℕ) (now : Time) (db : Db) → Commits (IsOver id) (complete_timer id now db)
unfolding complete_timer
complete-IsOver id now db =
    let gone =
      count-update-zero (pending_row id) (pending_row id) (completed now) db.timers
        (λ t. ground arith) in
    ground (arith, gone)

name-IsOver :
    (id : ℕ) {A : Type 0} (r : Result (A × Db))
    → Commits (IsOver id) r
    → Commits (IsOver id) (name_self_cancelled r)
name-IsOver id (ok r) h = h
name-IsOver id (err e) h = ground arith

continue-IsOver :
    (id : ℕ) {A : Type 0} (r : Result (A × Db)) (f : A → Tx Unit)
    → ((a : A) (db : Db) → Commits (IsOver id) (f a db))
    → Commits (IsOver id) (continue r f)
continue-IsOver id (ok (a, db)) f h = h a db
continue-IsOver id (err e) f h = tt

mark-IsOver :
    (h : Handler) (now : Time) (fresh : Timer) (db : Db)
    → Commits
        (IsOver fresh.id)
        (continue (h now fresh db) (λ _ db'. name_self_cancelled (complete_timer fresh.id now db')))
mark-IsOver h now fresh db =
    continue-IsOver fresh.id (h now fresh db)
      (λ _ db'. name_self_cancelled (complete_timer fresh.id now db'))
      (λ a db'.
        name-IsOver fresh.id (complete_timer fresh.id now db') (complete-IsOver fresh.id now db'))

timer_is-id : (id : ℕ) (t : Timer) → timer_is id t ≡ true → t.id ≡ id
timer_is-id id t h = ground arith

load-cases :
    (id : ℕ) (db : Db)
    → (load_pending_timer id db ≡ err timer_not_pending)
      ⊎ ((t : Timer) × (load_pending_timer id db ≡ ok (t, db)) × (t.id ≡ id))
unfolding load_pending_timer
load-cases id db = elim (Option-cases (find (timer_is id) db.timers)) [
  | inl e ↦ inl (ground (arith, e))
  | inr (t, e) ↦ elim (Bool-cases (is_pending t)) [
    | inl p ↦ inr (t, ground (arith, e, p), timer_is-id id t (find-true (timer_is id) db.timers e))
    | inr p ↦ inl (ground (arith, e, p))
  ]
]

-- Where the transaction commits, the timer is over.
tick-IsOver : (h : Handler) (now : Time) (id : ℕ) (db : Db) → Commits (IsOver id) (tick h now id db)
unfolding tick
tick-IsOver h now id db = elim (load-cases id db) [
  | inl e ↦ rw e tt
  | inr (t, e, same) ↦ rw e (
      subst
        (λ i.
          Commits (IsOver i)
            (continue (h now t db) (λ _ db'. name_self_cancelled (complete_timer t.id now db'))))
        same (mark-IsOver h now t db))
]

over-pending :
    (id : ℕ) (rows : List Timer) {t : Timer}
    → count (pending_row id) rows ≡ 0
    → find (timer_is id) rows ≡ some t
    → is_pending t ≡ false
over-pending id [] z h = ground arith
over-pending id (r ∷ rows) {t} z h = ground (arith, over-pending id rows {t = t})

over-load : (id : ℕ) (db : Db) → IsOver id db → load_pending_timer id db ≡ err timer_not_pending
unfolding load_pending_timer
over-load id db over = elim (Option-cases (find (timer_is id) db.timers)) [
  | inl e ↦ ground (arith, e)
  | inr (t, e) ↦ ground (arith, e, over-pending id db.timers over e)
]

-- What `execute` does with the handler that it finds.
abbrev run_handler : Time → Timer → Scheduler → Db → Option Handler → Scheduler × Db
run_handler now t s db none = (defer t.id now s, db)
run_handler now t s db (some h) =
    let (r, db') = commit (tick h now t.id) db in (settle t.id now r s, db')

execute-run_handler :
    (now : Time) (t : Timer) (s : Scheduler) (db : Db)
    → execute now t s db ≡ run_handler now t s db (s.handlers t.kind)
unfolding execute commit
execute-run_handler now t s db = by_handler (s.handlers t.kind)
  where
    by_handler :
        (o : Option Handler)
        → (elim o as (λ o. Scheduler × Db) [
          | none ↦ (defer t.id now s, db)
          | some h ↦ let (r, db') = commit (tick h now t.id) db in (settle t.id now r s, db')
        ])
          ≡ run_handler now t s db o
    by_handler none = refl
    by_handler (some h) = refl

-- A timer that does not load as pending is not run.
pub refused-execute :
    (now : Time) (t : Timer) (s : Scheduler) (db : Db)
    → load_pending_timer t.id db ≡ err timer_not_pending
    → (execute now t s db).1 ≡ db
unfolding commit tick
refused-execute now t s db refused =
    ap (λ (r : Scheduler × Db). r.1) (execute-run_handler now t s db)
    ∙ by_handler (s.handlers t.kind)
  where
    by_handler : (o : Option Handler) → (run_handler now t s db o).1 ≡ db
    by_handler none = refl
    by_handler (some h) = rw refused refl

outcome-cases :
    (P : Db → Type 0) {A : Type 0} (r : Result (A × Db)) (db : Db)
    → Commits P r
    → ((outcome r db).1 ≡ db) ⊎ P (outcome r db).1
outcome-cases P (ok (a, db')) db p = inr p
outcome-cases P (err e) db p = inl refl

-- Either the timer's transaction leaves the database as it was, or no row with the timer's id is
-- pending after it.
run_handler-cases :
    (now : Time) (t : Timer) (s : Scheduler) (db : Db) (o : Option Handler)
    → ((run_handler now t s db o).1 ≡ db) ⊎ IsOver t.id (run_handler now t s db o).1
unfolding commit
run_handler-cases now t s db none = inl refl
run_handler-cases now t s db (some h) =
    outcome-cases (IsOver t.id) (tick h now t.id db) db (tick-IsOver h now t.id db)

-- Executing a timer, with any handlers and at any instant, either changes nothing in the database, or
-- commits; and once it has committed, executing the same timer again, at any instant and with any
-- scheduler, changes nothing.
pub effect_at_most_once :
    (now : Time) (t : Timer) (s : Scheduler) (db : Db)
    → ((execute now t s db).1 ≡ db)
      ⊎ ((now' : Time) (s' : Scheduler)
          → (execute now' t s' (execute now t s db).1).1 ≡ (execute now t s db).1)
effect_at_most_once now t s db = elim (run_handler-cases now t s db (s.handlers t.kind)) [
  | inl e ↦ inl (ap (λ (r : Scheduler × Db). r.1) (execute-run_handler now t s db) ∙ e)
  | inr over ↦ inr (λ now' s'.
      let over' : IsOver t.id (execute now t s db).1 = rw (execute-run_handler now t s db) over in
      refused-execute now' t s' _ (over-load t.id _ over'))
]
