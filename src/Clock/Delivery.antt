-- ===== src/Clock/Delivery.antt =====
-- Where a tick of internal/clock/fake.go goes: into the channel of its waiter, which holds one at most.
use kerberon.Base.{
  ℕ, ◌+◌, ◌==◌, ◌≡◌, refl, ap, ◌∙◌, subst, inl, inr, true, false, Option, none, some, List, [], ◌∷◌,
  any, find, ltb, ==_iff, Bool-cases, Option-cases, arith,
}
use kerberon.Core.Time.{Time}
use kerberon.Clock.{Waiter, FakeClock, is_waiter, fire, replace, remove_first, remove, fire_due}
use kerberon.Clock.Advance.{AreDistinct}

-- The waiter with an id as the clock knows it, whether it still waits or not.
abbrev pub known_waiter : ℕ → FakeClock → Option Waiter
known_waiter id f = elim (find (is_waiter id) f.waiters) [
  | some w ↦ some w
  | none ↦ find (is_waiter id) f.released
]

-- What a channel holds when a tick has come: that tick, or an earlier one that nobody has taken.
abbrev pub buffered : Option Time → Time → Time
buffered none at = at
buffered (some earlier) at = earlier

-- The waiter after its tick.
abbrev pub Delivered : Waiter → FakeClock → Type 0
Delivered w f =
    (v : Waiter) × (known_waiter w.id f ≡ some v) × (v.ch ≡ some (buffered w.ch w.deadline))

fire-buffered : (at : Time) (w : Waiter) → (fire at w).ch ≡ some (buffered w.ch at)
unfolding fire
fire-buffered at w = elim (Option-cases w.ch) [ inl e ↦ rw e refl | inr (x, e) ↦ rw e refl ]

pub fire-id : (at : Time) (w : Waiter) → (fire at w).id ≡ w.id
unfolding fire
fire-id at w = elim (Option-cases w.ch) [ inl e ↦ rw e refl | inr (x, e) ↦ rw e refl ]

replace-find :
    (w v : Waiter) (ws : List Waiter)
    → find (is_waiter w.id) ws ≡ some v
    → find (is_waiter w.id) (replace w ws) ≡ some w
unfolding replace
replace-find w v [] h = absurd (cc h)
replace-find w v (x ∷ ws) h = elim (Bool-cases (x.id == w.id)) [
  | inl e ↦ let own : (w.id == w.id) ≡ true = ground arith in rw (e, own) refl
  | inr e ↦ rw (e, replace-find w v ws (rw e at h), e) refl
]

any-find :
    (id : ℕ) (ws : List Waiter) → any (is_waiter id) ws ≡ false → find (is_waiter id) ws ≡ none
any-find id [] h = refl
any-find id (v ∷ ws) h = elim (Bool-cases (v.id == id)) [
  | inl e ↦ absurd (cc (rw e at h))
  | inr e ↦ rw (e, any-find id ws (rw e at h)) refl
]

remove_first-find :
    (id : ℕ) (ws : List Waiter) → AreDistinct ws → find (is_waiter id) (remove_first id ws) ≡ none
unfolding remove_first
remove_first-find id [] h = refl
remove_first-find id (v ∷ ws) (apart, h) = elim (Bool-cases (v.id == id)) [
  | inl e ↦
      let same : v.id ≡ id = (==_iff v.id id).0 e in
      rw e (any-find id ws (subst (λ i. any (is_waiter i) ws ≡ false) same apart))
  | inr e ↦ rw (e, remove_first-find id ws h, e) refl
]

pub find-any :
    (id : ℕ) (ws : List Waiter) (w : Waiter)
    → find (is_waiter id) ws ≡ some w
    → any (is_waiter id) ws ≡ true
find-any id [] w h = absurd (cc h)
find-any id (v ∷ ws) w h = elim (Bool-cases (v.id == id)) [
  | inl e ↦ rw e refl
  | inr e ↦ rw e (find-any id ws w (rw e at h))
]

-- The tick of a waiter of the clock is in its channel, unless that still holds an earlier one.
pub fire_due-Delivered :
    (w : Waiter) (f : FakeClock)
    → AreDistinct f.waiters
    → find (is_waiter w.id) f.waiters ≡ some w
    → Delivered w (fire_due w f)
unfolding fire_due remove
fire_due-Delivered w f apart h = elim (Bool-cases (ltb 0 w.period)) [
  | inl e ↦
      let w' : Waiter = record (fire w.deadline w) { deadline = w.deadline + w.period } in
      let same : w'.id ≡ w.id = fire-id w.deadline w in
      let there : find (is_waiter w.id) (replace w' f.waiters) ≡ some w' =
        subst (λ i. find (is_waiter i) (replace w' f.waiters) ≡ some w') same
          (replace-find w' w f.waiters (ap (λ i. find (is_waiter i) f.waiters) same ∙ h)) in
      rw e (w', rw (known_waiter, there) refl, fire-buffered w.deadline w)
  | inr e ↦
      let same = fire-id w.deadline w in
      let there : any (is_waiter w.id) f.waiters ≡ true = find-any w.id f.waiters w h in
      let gone = remove_first-find w.id f.waiters apart in
      let own : (w.id == w.id) ≡ true = ground arith in
      rw (e, same, there)
        (fire w.deadline w, rw (known_waiter, gone, same, own) refl, fire-buffered w.deadline w)
]
