-- ===== src/Clock/Ticks.antt =====
-- What `Advance` of internal/clock/fake.go delivers.
use kerberon.Base.{
  ℕ, zero, suc, ◌+◌, ◌≤◌, ◌<◌, ◌≡◌, refl, inl, inr, ◌⊎◌, true, none, some, List, any, find, All,
  All-map, ltb, arith, Bool-cases, Option-cases,
}
use kerberon.Core.Time.{Time, Duration}
use kerberon.Clock.{
  Waiter, FakeClock, is_waiter, fire, earliest_from, earliest_due, replace, remove_first, remove,
  fire_due, fire_all, ticks_left, advance,
}
use kerberon.Clock.Delivery.{Delivered, fire-id, find-any, fire_due-Delivered}
use kerberon.Clock.Advance.{
  AreDistinct, earliest_from-any, earliest_from-none, earliest_from-least, found, replace-shrinks,
  remove-shrinks, replace-AreDistinct, remove_first-AreDistinct, replace-All, remove_first-All,
}

-- The waiters are distinct, and no deadline has passed.
pub record IsWound (f : FakeClock) : Type 0 where
  pub distinct : AreDistinct f.waiters
  pub ahead : All (λ (w : Waiter). f.now ≤ w.deadline) f.waiters

-- The ticks up to a target, one after the other: each is the earliest one due, at its own deadline, which the
-- clock shows and which no tick after it precedes. It is then in the channel of its waiter, unless that still
-- holds an earlier one.
pub data Ticks (target : Time) : FakeClock → FakeClock → Type 0 where
  rest : (f : FakeClock) → earliest_due target f ≡ none → Ticks target f (record f { now = target })
  tick :
      (f : FakeClock) (w : Waiter) (f' : FakeClock)
      → earliest_due target f ≡ some w
      → f.now ≤ w.deadline
      → w.deadline ≤ target
      → (fire_due w f).now ≡ w.deadline
      → Delivered w (fire_due w f)
      → Ticks target (fire_due w f) f'
      → Ticks target f f'

-- A ticker is put off by its period, and a timer is gone.
fire_due-waiters :
    (w : Waiter) (f : FakeClock)
    → find (is_waiter w.id) f.waiters ≡ some w
    → ((w' : Waiter) × (w'.id ≡ w.id)
        × (w.deadline < w'.deadline)
        × ((fire_due w f).waiters ≡ replace w' f.waiters))
      ⊎ ((fire_due w f).waiters ≡ remove_first w.id f.waiters)
unfolding fire_due remove
fire_due-waiters w f h = elim (Bool-cases (ltb 0 w.period)) [
  | inl e ↦
      let w' : Waiter = record (fire w.deadline w) { deadline = w.deadline + w.period } in
      inl (w', fire-id w.deadline w, ground (arith, e), rw e refl)
  | inr e ↦
      let there : any (is_waiter w.id) f.waiters ≡ true = find-any w.id f.waiters w h in
      inr (rw (e, fire-id w.deadline w, there) refl)
]

fire_due-now : (w : Waiter) (f : FakeClock) → (fire_due w f).now ≡ w.deadline
unfolding fire_due remove
fire_due-now w f = elim (Bool-cases (ltb 0 w.period)) [
  | inl e ↦ rw e refl
  | inr e ↦ elim (Bool-cases (any (is_waiter (fire w.deadline w).id) f.waiters)) [
    | inl g ↦ rw (e, g) refl
    | inr g ↦ rw (e, g) refl
  ]
]

record Step (target : Time) (w : Waiter) (f : FakeClock) : Type 0 where
  due : w.deadline ≤ target
  forward : f.now ≤ w.deadline
  shrinks : ticks_left target (fire_due w f).waiters < ticks_left target f.waiters
  kept : IsWound (fire_due w f)
  arrived : Delivered w (fire_due w f)

fire_due-Step :
    (target : Time) (f : FakeClock) (w : Waiter)
    → IsWound f
    → earliest_due target f ≡ some w
    → Step target w f
unfolding earliest_due
fire_due-Step target f w wound e =
    let by_id =
      picked (λ v. find (is_waiter v.id) f.waiters ≡ some v) f.waiters
        (found f.waiters wound.distinct) e in
    let later = picked (λ v. f.now ≤ v.deadline) f.waiters wound.ahead e in
    let soon =
      earliest_from-any target (λ v. v.deadline ≤ target) f.waiters none (λ v g. absurd (cc g))
        (All-map (λ v. f.now ≤ v.deadline) (λ v. v.deadline ≤ target → v.deadline ≤ target)
          f.waiters (λ v g d. d) wound.ahead)
        w e in
    let (_, least) = earliest_from-least target f.waiters none w e soon in
    let clock = fire_due-now w f in
    elim (fire_due-waiters w f by_id) [
      | inl (w', same, ahead, ws) ↦ record {
        due = soon;
        forward = later;
        shrinks = rw ws (replace-shrinks target w w' same ahead soon f.waiters by_id);
        kept = record {
          distinct = rw ws (replace-AreDistinct w' f.waiters wound.distinct);
          ahead =
              rw (ws, clock)
                (replace-All (λ v. w.deadline ≤ v.deadline) w' f.waiters (omega (arith, ahead))
                  least);
        };
        arrived = fire_due-Delivered w f wound.distinct by_id;
      }
      | inr ws ↦ record {
        due = soon;
        forward = later;
        shrinks = rw ws (remove-shrinks target w soon f.waiters by_id);
        kept = record {
          distinct = rw ws (remove_first-AreDistinct w.id f.waiters wound.distinct);
          ahead =
              rw (ws, clock) (remove_first-All (λ v. w.deadline ≤ v.deadline) w.id f.waiters least);
        };
        arrived = fire_due-Delivered w f wound.distinct by_id;
      }
    ]
  where
    picked :
        (P : Waiter → Type 0) (ws : List Waiter)
        → All P ws
        → earliest_from target none ws ≡ some w
        → P w
    picked P ws all found_w =
        earliest_from-any target P ws none (λ v g. absurd (cc g))
          (All-map P (λ v. v.deadline ≤ target → P v) ws (λ v p due. p) all) w found_w

-- Nothing is due any more.
pub record IsAtRest (target : Time) (f : FakeClock) : Type 0 where
  pub now : f.now ≡ target
  pub distinct : AreDistinct f.waiters
  pub later : All (λ (w : Waiter). target < w.deadline) f.waiters

at_rest :
    (target : Time) (f : FakeClock)
    → IsWound f
    → earliest_due target f ≡ none
    → Ticks target f (record f { now = target }) × IsAtRest target (record f { now = target })
unfolding earliest_due
at_rest target f wound e = (
  rest f e,
  record { now = refl; distinct = wound.distinct; later = earliest_from-none target f.waiters e },
)

fire_all-delivers :
    (fuel target : ℕ) (f : FakeClock)
    → IsWound f
    → ticks_left target f.waiters ≤ fuel
    → (f' : FakeClock) × (fire_all fuel target f ≡ some f') × Ticks target f f' × IsAtRest target f'
unfolding fire_all
fire_all-delivers zero target f wound enough = elim (Option-cases (earliest_due target f)) [
  | inl e ↦ (
    record f { now = target },
    rw (e, fire_all) refl,
    (at_rest target f wound e).0,
    (at_rest target f wound e).1,
  )
  | inr (w, e) ↦
      let s = fire_due-Step target f w wound e in absurd (omega (arith, enough, s.shrinks))
]
fire_all-delivers (suc n) target f wound enough = elim (Option-cases (earliest_due target f)) [
  | inl e ↦ (
    record f { now = target },
    rw (e, fire_all) refl,
    (at_rest target f wound e).0,
    (at_rest target f wound e).1,
  )
  | inr (w, e) ↦
      let s = fire_due-Step target f w wound e in
      let (f', done, ticks, quiet) =
        fire_all-delivers n target (fire_due w f) s.kept (omega (arith, enough, s.shrinks)) in
      (
        f',
        rw (e, fire_all) done,
        tick f w f' e s.forward s.due (fire_due-now w f) s.arrived ticks,
        quiet,
      )
]

-- Of a clock whose waiters are distinct and not overdue, `Advance` always comes to an end: it fires
-- every tick up to its target in the order of the deadlines, each into the channel of its waiter unless that
-- still holds an earlier tick, and leaves the clock at the target and nobody who is due.
pub advance_delivers :
    (d : Duration) (f : FakeClock)
    → IsWound f
    → (f' : FakeClock) × (advance d f ≡ some f') × Ticks (f.now + d) f f' × IsAtRest (f.now + d) f'
unfolding advance
advance_delivers d f wound =
    fire_all-delivers (ticks_left (f.now + d) f.waiters) (f.now + d) f wound (omega arith)
