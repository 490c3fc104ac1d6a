-- ===== src/Heartbeat/Once.antt =====
-- A switch that missed its window is raised once (internal/heartbeat/heartbeat.go).
use kerberon.Base.{
  ℕ, suc, ◌==◌, ◌≡◌, refl, subst, sym, true, Option, none, List, [], ◌∷◌, if◌then◌else◌, any,
  filter, All, arith, Bool-cases, inl, inr, ltb, count, ==_refl,
}
use kerberon.Core.Time.{Time}
use kerberon.Core.Records.{Heartbeat}
use kerberon.Store.Table.{update}
use kerberon.Store.Tx.{Db, Result, ok, err, commit}
use kerberon.Store.Heartbeats.{
  overdue, overdue_heartbeats, mark_heartbeat_missing, flips, go_missing,
}
use kerberon.Heartbeat.Sweeper.{Texts, Sink, Swept, raise_next, send, sweep_each, sweep_once}

-- A switch that is overdue is still to be swept.
abbrev Pending : Time → List Heartbeat → Heartbeat → Type 0
Pending now list h = overdue now h ≡ true → any (λ (o : Heartbeat). o.id == h.id) list ≡ true

weaken :
    (now : Time) (o : Heartbeat) (list rows : List Heartbeat)
    → All (Pending now list) rows
    → All (Pending now (o ∷ list)) rows
weaken now o list [] a = tt
weaken now o list (h ∷ rows) a = (λ e. ground (arith, a.0 e), weaken now o list rows a.1)

All-Pending :
    (now : Time) (rows : List Heartbeat) → All (Pending now (filter (overdue now) rows)) rows
All-Pending now [] = tt
All-Pending now (h ∷ rows) = elim (Bool-cases (overdue now h)) [
  | inl e ↦
      let kept : h ∷ filter (overdue now) rows ≡ filter (overdue now) (h ∷ rows) = rw e refl in
      subst (λ list. All (Pending now list) (h ∷ rows)) kept
        (
          (λ _. ground (arith, ==_refl h.id)),
          weaken now h (filter (overdue now) rows) rows (All-Pending now rows),
        )
  | inr e ↦
      let kept : filter (overdue now) rows ≡ filter (overdue now) (h ∷ rows) = rw e refl in
      subst (λ list. All (Pending now list) (h ∷ rows)) kept
        ((λ late. absurd (cc (e, late))), All-Pending now rows)
]

flipped :
    (now : Time) (o h : Heartbeat) (list : List Heartbeat)
    → Pending now (o ∷ list) h
    → Pending now list (if flips o.id h then go_missing h else h)
flipped now o h list p late = elim (Bool-cases (flips o.id h)) [
  | inl e ↦ absurd (ground (arith, e, late))
  | inr e ↦ ground (arith, e, late, p)
]

-- The flip takes the first switch off the list.
flip-Pending :
    (now : Time) (o : Heartbeat) (list rows : List Heartbeat)
    → All (Pending now (o ∷ list)) rows
    → All (Pending now list) (update (flips o.id) go_missing rows)
flip-Pending now o list [] a = tt
flip-Pending now o list (h ∷ rows) a = (flipped now o h list a.0, flip-Pending now o list rows a.1)

module _ (texts : Texts) (sink : Option Sink) (now : Time)
    (apart : (h : Heartbeat) (db : Db)
      → (send texts sink now h db).1.heartbeats ≡ db.heartbeats) where
  -- Either the sink fails, or the rest of the sweep goes on from a table that the sink left alone.
  raise_next-clears :
      (raised : ℕ) (rest : Db → Swept × Db) (rows : List Heartbeat) (r : Result Unit × Db)
      → r.1.heartbeats ≡ rows
      → ((db : Db)
          → db.heartbeats ≡ rows
          → (rest db).0.error ≡ none
          → All (Pending now []) (rest db).1.heartbeats)
      → (raise_next texts sink now raised rest r).0.error ≡ none
      → All (Pending now []) (raise_next texts sink now raised rest r).1.heartbeats
  raise_next-clears raised rest rows (err e, db) same k done = absurd (cc done)
  raise_next-clears raised rest rows (ok u, db) same k done = k db same done

  sweep_each-clears :
      (list : List Heartbeat) (raised : ℕ) (db : Db)
      → All (Pending now list) db.heartbeats
      → (sweep_each texts sink now raised list db).0.error ≡ none
      → All (Pending now []) (sweep_each texts sink now raised list db).1.heartbeats
  unfolding sweep_each commit mark_heartbeat_missing
  sweep_each-clears [] raised db a done = a
  sweep_each-clears (o ∷ list) raised db a done =
      let rows : List Heartbeat = update (flips o.id) go_missing db.heartbeats in
      let db' : Db = record db { heartbeats = rows } in
      let left : All (Pending now list) rows = flip-Pending now o list db.heartbeats a in
      elim (Bool-cases (ltb 0 (count (flips o.id) db.heartbeats))) [
        | inl e ↦
            rw (e, sweep_each)
              (raise_next-clears raised (λ d. sweep_each texts sink now (suc raised) list d) rows
                (send texts sink now o db') (apart o db')
                (λ d same.
                  sweep_each-clears list (suc raised) d
                    (subst (λ hs. All (Pending now list) hs) (sym same) left))
                (rw (e, sweep_each) at done))
        | inr e ↦
            rw (e, sweep_each) (sweep_each-clears list raised db' left (rw (e, sweep_each) at done))
      ]

none-overdue :
    (now : Time) (rows : List Heartbeat)
    → All (Pending now []) rows
    → filter (overdue now) rows ≡ []
none-overdue now [] a = refl
none-overdue now (h ∷ rows) a = ground (arith, a.0, none-overdue now rows a.1)

-- Where the sink that takes the alerts does not write to the switches, a sweep that reports no error
-- leaves no switch overdue at its instant; so a second sweep at that instant, with any texts and any
-- sink, raises nothing and changes nothing.
pub sweep_raises_once :
    (texts : Texts) (sink : Option Sink) (now : Time) (db : Db)
    → ((h : Heartbeat) (db : Db) → (send texts sink now h db).1.heartbeats ≡ db.heartbeats)
    → (sweep_once texts sink now db).0.error ≡ none
    → (overdue_heartbeats (sweep_once texts sink now db).1 now ≡ [])
      × ((texts' : Texts) (sink' : Option Sink)
          → sweep_once texts' sink' now (sweep_once texts sink now db).1
            ≡ (record { raised = 0; error = none }, (sweep_once texts sink now db).1))
unfolding sweep_once overdue_heartbeats sweep_each
sweep_raises_once texts sink now db apart done =
    let clear = none-overdue now _ (
      sweep_each-clears texts sink now apart (filter (overdue now) db.heartbeats) 0 db
        (All-Pending now db.heartbeats) done) in
    (clear, λ texts' sink'. rw (clear, sweep_once) refl)
