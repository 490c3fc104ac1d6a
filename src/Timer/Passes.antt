-- ===== src/Timer/Passes.antt =====
-- One pass of the scheduler: what it runs, and how long it may sleep.
use kerberon.Base.{
  ℕ, ◌+◌, ◌-◌, ◌≤◌, ◌<◌, max, ◌≡◌, ◌⊎◌, inl, inr, refl, subst, true, Option, none, some, List, [],
  ◌∷◌, arith, if◌then◌else◌, ltb, All, Bool-cases, Option-cases,
}
use kerberon.Base.Sort.{IsSorted}
use kerberon.Core.Time.{Time, Duration}
use kerberon.Core.Records.{Timer, is_pending}
use kerberon.Store.Tx.{Db}
use kerberon.Store.Timers.{next_pending_timers, sooner}
use kerberon.Timer.Batch.{OnTheSecond, next-pending, next-IsSorted, next-OnTheSecond}
use kerberon.Timer.{
  Scheduler, step, choose, Choice, fire, idle, execute, batch_size, deferred_until, shorter,
}

abbrev or_zero : Option Time → Time
or_zero none = 0
or_zero (some t) = t

-- When a timer may run: not before it is due, and not while it backs off.
abbrev pub ready_at : (ℕ → Option Time) → Timer → Time
ready_at retry t = max t.fire_at (or_zero (retry t.id))

-- Not ready for at least so long.
abbrev pub NotWithin : (ℕ → Option Time) → Time → Duration → Timer → Type 0
NotWithin retry now wait t = (now < ready_at retry t) × (now + wait ≤ ready_at retry t)

sooner-fire_at :
    (t u : Timer) → OnTheSecond t → OnTheSecond u → sooner t u ≡ true → t.fire_at ≤ u.fire_at
sooner-fire_at t u on onu h = ground (arith, on, onu)

not_due-NotWithin :
    (retry : ℕ → Option Time) (now : Time) (wait : Duration) (t : Timer)
    → now < t.fire_at
    → now + wait ≤ t.fire_at
    → NotWithin retry now wait t
not_due-NotWithin retry now wait t late far = (omega arith, omega arith)

later-NotWithin :
    (retry : ℕ → Option Time) (now : Time) (wait : Duration) (t : Timer) (batch : List Timer)
    → now < t.fire_at
    → now + wait ≤ t.fire_at
    → OnTheSecond t
    → All (λ u. sooner t u ≡ true) batch
    → All OnTheSecond batch
    → All (NotWithin retry now wait) batch
later-NotWithin retry now wait t [] late far on sorted ons = tt
later-NotWithin retry now wait t (u ∷ batch) late far on sorted ons =
    let le : t.fire_at ≤ u.fire_at = sooner-fire_at t u on ons.0 sorted.0 in
    (
      not_due-NotWithin retry now wait u (omega arith) (omega arith),
      later-NotWithin retry now wait t batch late far on sorted.1 ons.1,
    )

-- The first timer that is not due ends the loop.
end-idle :
    (now : Time) (wait : Duration) (t : Timer) {w : Duration}
    → (if ltb now t.fire_at then idle (shorter (t.fire_at - now) wait) else fire t) ≡ idle w
    → (now < t.fire_at) × (now + w ≤ t.fire_at) × (w ≤ wait)
end-idle now wait t {w} h = ground arith

deferred_until-bounds :
    (o : Option Time) (now : Time) {until : Time}
    → deferred_until o now ≡ some until
    → (now < until) × (or_zero o ≡ until)
deferred_until-bounds none now h = ground arith
deferred_until-bounds (some u) now h = ground arith

shorter-le : (d wait : Duration) → (shorter d wait ≤ d) × (shorter d wait ≤ wait)
shorter-le d wait = ground arith

choose-idle :
    (retry : ℕ → Option Time) (now : Time) (wait : Duration) (batch : List Timer) {w : Duration}
    → IsSorted sooner batch
    → All OnTheSecond batch
    → choose retry now wait batch ≡ idle w
    → (w ≤ wait) × All (NotWithin retry now w) batch
unfolding choose
choose-idle retry now wait [] {w} s on h =
    (let same : wait ≡ w = ground arith in omega (arith, same), tt)
choose-idle retry now wait (t ∷ batch) {w} s on h =
    elim (Option-cases (deferred_until (retry t.id) now)) [
      | inl e ↦
          let (late, far, le) = end-idle now wait t (rw (e, choose) at h) in
          (
            le,
            (
              not_due-NotWithin retry now w t late far,
              later-NotWithin retry now w t batch late far on.0 s.0 on.1,
            ),
          )
      | inr (until, e) ↦
          let (le, rest) =
            choose-idle retry now (shorter (until - now) wait) batch s.1 on.1
              (rw (e, choose) at h) in
          let (late, same) = deferred_until-bounds (retry t.id) now e in
          let (near, le') = shorter-le (until - now) wait in
          (omega arith, ((omega arith, omega arith), rest))
    ]

end-fire :
    (now : Time) (wait : Duration) (u : Timer) {t : Timer}
    → (if ltb now u.fire_at then idle (shorter (u.fire_at - now) wait) else fire u) ≡ fire t
    → (u ≡ t) × (u.fire_at ≤ now)
end-fire now wait u {t} h = elim (Bool-cases (ltb now u.fire_at)) [
  | inl e ↦ absurd (cc (rw e at h))
  | inr e ↦ (ground (arith, e, h), ground arith)
]

not_deferred-le : (o : Option Time) (now : Time) → deferred_until o now ≡ none → or_zero o ≤ now
not_deferred-le none now h = omega arith
not_deferred-le (some u) now h = ground arith

-- What is run is due, and not backing off; so it is in what `choose` was given.
choose-fire :
    (retry : ℕ → Option Time) (now : Time) (wait : Duration) (batch : List Timer)
    (P : Timer → Type 0) {t : Timer}
    → All P batch
    → choose retry now wait batch ≡ fire t
    → P t × (ready_at retry t ≤ now)
unfolding choose
choose-fire retry now wait [] P a h = absurd (cc h)
choose-fire retry now wait (u ∷ batch) P {t} a h =
    elim (Option-cases (deferred_until (retry u.id) now)) [
      | inl e ↦
          let (same, due) = end-fire now wait u (rw (e, choose) at h) in
          let free : or_zero (retry u.id) ≤ now = not_deferred-le (retry u.id) now e in
          subst (λ t. P t × (ready_at retry t ≤ now)) same (a.0, omega arith)
      | inr (until, e) ↦
          choose-fire retry now (shorter (until - now) wait) batch P a.1 (rw (e, choose) at h)
    ]

-- The pass executes one timer, which is pending, due and not backing off.
abbrev pub RunsOne : Time → Scheduler → Db → Type 0
RunsOne now s db =
    (t : Timer) × (step now s db ≡ (0, execute now t s db))
    × (is_pending t ≡ true)
    × (ready_at s.retry_after t ≤ now)

-- The pass changes nothing, and the sleep ends before any timer of the batch is ready.
abbrev pub Sleeps : Time → Scheduler → Db → Type 0
Sleeps now s db =
    (wait : Duration) × (step now s db ≡ (wait, (s, db)))
    × (wait ≤ s.opts.max_idle_wait)
    × All (NotWithin s.retry_after now wait) (next_pending_timers db batch_size)

-- Where the times in the table are whole seconds, a pass of the scheduler does one of two things. It
-- executes exactly one timer, which is pending, due and not backing off; or it changes nothing and
-- sleeps no longer than the idle bound, none of the 16 earliest pending timers being ready now, nor
-- before the sleep ends.
pub step_runs_or_Sleeps :
    (now : Time) (s : Scheduler) (db : Db)
    → All OnTheSecond db.timers
    → RunsOne now s db ⊎ Sleeps now s db
unfolding step
step_runs_or_Sleeps now s db on =
    by_choice (choose s.retry_after now s.opts.max_idle_wait (next_pending_timers db batch_size))
      refl
  where
    by_choice :
        (c : Choice)
        → choose s.retry_after now s.opts.max_idle_wait (next_pending_timers db batch_size) ≡ c
        → RunsOne now s db ⊎ Sleeps now s db
    by_choice (fire t) h =
        let (p, r) = choose-fire _ _ _ _ (λ t. is_pending t ≡ true) (next-pending db) h in
        inl (t, rw (h, step) refl, p, r)
    by_choice (idle w) h =
        let (le, a) = choose-idle _ _ _ _ (next-IsSorted db) (next-OnTheSecond db on) h in
        inr (w, rw (h, step) refl, le, a)
