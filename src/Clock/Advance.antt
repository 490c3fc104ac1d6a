-- ===== src/Clock/Advance.antt =====
-- The waiter that `Advance` of internal/clock/fake.go picks, and what replacing or removing it leaves.
use kerberon.Base.{
  ℕ, ◌==◌, ◌≤◌, ◌<◌, ◌≡◌, refl, ap, ◌∙◌, subst, inl, inr, false, Option, none, some, List, [], ◌∷◌,
  any, find, All, ltb, arith, ==_iff, Bool-cases,
}
use kerberon.Core.Time.{Time}
use kerberon.Clock.{Waiter, is_waiter, sooner, earliest_from, replace, remove_first, ticks_left}

-- No two waiters are one.
abbrev pub AreDistinct : List Waiter → Type 0
AreDistinct [] = Unit
AreDistinct (w ∷ ws) = (any (is_waiter w.id) ws ≡ false) × AreDistinct ws

-- ─── The earliest waiter that is due ───

module _ (target : Time) where
  -- What holds of every waiter that is due holds of the one that is found.
  pub earliest_from-any :
      (P : Waiter → Type 0) (ws : List Waiter) (best : Option Waiter)
      → ((v : Waiter) → best ≡ some v → P v)
      → All (λ v. v.deadline ≤ target → P v) ws
      → (w : Waiter) → earliest_from target best ws ≡ some w
      → P w
  unfolding earliest_from
  earliest_from-any P [] best b h w e = b w e
  earliest_from-any P (v ∷ ws) best b h w e = elim (Bool-cases (ltb target v.deadline)) [
    | inl f ↦ earliest_from-any P ws best b h.1 w (rw f at e)
    | inr f ↦
        earliest_from-any P ws (sooner v best) (next best b (h.0 (ground (arith, f)))) h.1 w
          (rw f at e)
  ]
    where
      next :
          (o : Option Waiter)
          → ((u : Waiter) → o ≡ some u → P u)
          → P v
          → (u : Waiter) → sooner v o ≡ some u
          → P u
      next none q p u s = subst P (cc s) p
      next (some x) q p u s = elim (Bool-cases (ltb v.deadline x.deadline)) [
        | inl g ↦ let same : v ≡ u = cc (rw g at s) in subst P same p
        | inr g ↦ q u (rw g at s)
      ]

  earliest_from-some :
      (ws : List Waiter) (b : Waiter) → (w : Waiter) × (earliest_from target (some b) ws ≡ some w)
  unfolding earliest_from
  earliest_from-some [] b = (b, refl)
  earliest_from-some (v ∷ ws) b = elim (Bool-cases (ltb target v.deadline)) [
    | inl f ↦ rw f (earliest_from-some ws b)
    | inr f ↦ elim (Bool-cases (ltb v.deadline b.deadline)) [
      | inl g ↦ rw (f, g) (earliest_from-some ws v)
      | inr g ↦ rw (f, g) (earliest_from-some ws b)
    ]
  ]

  -- Where none is found, none is due.
  pub earliest_from-none :
      (ws : List Waiter) → earliest_from target none ws ≡ none → All (λ v. target < v.deadline) ws
  unfolding earliest_from
  earliest_from-none [] e = tt
  earliest_from-none (v ∷ ws) e = elim (Bool-cases (ltb target v.deadline)) [
    | inl f ↦ (ground (arith, f), earliest_from-none ws (rw f at e))
    | inr f ↦ let (w, g) = earliest_from-some ws v in absurd (cc (g, rw f at e))
  ]

  -- The one that is found is no later than any other, nor than the best before.
  pub earliest_from-least :
      (ws : List Waiter) (best : Option Waiter) (w : Waiter)
      → earliest_from target best ws ≡ some w
      → w.deadline ≤ target
      → ((v : Waiter) → best ≡ some v → w.deadline ≤ v.deadline)
        × All (λ v. w.deadline ≤ v.deadline) ws
  unfolding earliest_from
  earliest_from-least [] best w e due = (
    λ v f. let same : v ≡ w = cc (f, e) in omega (arith, ap (λ (u : Waiter). u.deadline) same),
    tt,
  )
  earliest_from-least (v ∷ ws) best w e due = elim (Bool-cases (ltb target v.deadline)) [
    | inl f ↦
        let (b, all) = earliest_from-least ws best w (rw f at e) due in
        (b, (ground (arith, f, due), all))
    | inr f ↦
        let (b, all) = earliest_from-least ws (sooner v best) w (rw f at e) due in
        let (x, y) = both best b in (y, (x, all))
  ]
    where
      both :
          (o : Option Waiter)
          → ((u : Waiter) → sooner v o ≡ some u → w.deadline ≤ u.deadline)
          → (w.deadline ≤ v.deadline) × ((u : Waiter) → o ≡ some u → w.deadline ≤ u.deadline)
      both none b = (b v refl, λ u f. absurd (cc f))
      both (some x) b = elim (Bool-cases (ltb v.deadline x.deadline)) [
        | inl g ↦
            let first = b v (rw g refl) in
            (
              first,
              λ u f.
                  let same : x ≡ u = cc f in
                  subst (λ (z : Waiter). w.deadline ≤ z.deadline) same (ground (arith, first, g)),
            )
        | inr g ↦
            let second = b x (rw g refl) in
            (
              ground (arith, second, g),
              λ u f.
                  let same : x ≡ u = cc f in
                  subst (λ (z : Waiter). w.deadline ≤ z.deadline) same second,
            )
      ]

-- ─── What one tick leaves ───

-- In a list of distinct waiters, an id finds its waiter.
pub found : (ws : List Waiter) → AreDistinct ws → All (λ v. find (is_waiter v.id) ws ≡ some v) ws
found [] h = tt
found (w ∷ ws) (apart, h) = (ground (arith, (==_iff w.id w.id).1 refl), past ws apart (found ws h))
  where
    past :
        (vs : List Waiter)
        → any (is_waiter w.id) vs ≡ false
        → All (λ v. find (is_waiter v.id) ws ≡ some v) vs
        → All (λ v. find (is_waiter v.id) (w ∷ ws) ≡ some v) vs
    past [] a q = tt
    past (v ∷ vs) a q =
        let other : (w.id == v.id) ≡ false = ground arith in
        (rw other q.0, past vs (ground arith) q.1)

module _ (target : Time) (w w' : Waiter) (same : w'.id ≡ w.id) (ahead : w.deadline < w'.deadline)
    (due : w.deadline ≤ target) where
  pub replace-shrinks :
      (ws : List Waiter)
      → find (is_waiter w.id) ws ≡ some w
      → ticks_left target (replace w' ws) < ticks_left target ws
  unfolding replace ticks_left
  replace-shrinks [] h = absurd (cc h)
  replace-shrinks (v ∷ ws) h = elim (Bool-cases (v.id == w.id)) [
    | inl e ↦
        let found : v ≡ w = cc (rw e at h) in
        let this : v.deadline ≡ w.deadline = ap (λ (u : Waiter). u.deadline) found in
        rw (same, e) (omega (arith, this))
    | inr e ↦ let rest = replace-shrinks ws (rw e at h) in rw (same, e) (omega (arith, rest))
  ]

module _ (target : Time) (w : Waiter) (due : w.deadline ≤ target) where
  pub remove-shrinks :
      (ws : List Waiter)
      → find (is_waiter w.id) ws ≡ some w
      → ticks_left target (remove_first w.id ws) < ticks_left target ws
  unfolding remove_first ticks_left
  remove-shrinks [] h = absurd (cc h)
  remove-shrinks (v ∷ ws) h = elim (Bool-cases (v.id == w.id)) [
    | inl e ↦
        let found : v ≡ w = cc (rw e at h) in
        let this : v.deadline ≡ w.deadline = ap (λ (u : Waiter). u.deadline) found in
        rw e (omega (arith, this))
    | inr e ↦ let rest = remove-shrinks ws (rw e at h) in rw e (omega (arith, rest))
  ]

-- A property of ids goes through a replacement and a removal.
replace-any :
    (w : Waiter) (id : ℕ) (ws : List Waiter)
    → any (is_waiter id) (replace w ws) ≡ any (is_waiter id) ws
unfolding replace
replace-any w id [] = refl
replace-any w id (v ∷ ws) = elim (Bool-cases (v.id == w.id)) [
  | inl e ↦ let same : v.id ≡ w.id = (==_iff v.id w.id).0 e in rw (e, same) refl
  | inr e ↦ rw (e, replace-any w id ws) refl
]

pub replace-AreDistinct :
    (w : Waiter) (ws : List Waiter) → AreDistinct ws → AreDistinct (replace w ws)
unfolding replace
replace-AreDistinct w [] h = tt
replace-AreDistinct w (v ∷ ws) (apart, h) = elim (Bool-cases (v.id == w.id)) [
  | inl e ↦
      let same : v.id ≡ w.id = (==_iff v.id w.id).0 e in
      rw e (subst (λ i. any (is_waiter i) ws ≡ false) same apart, h)
  | inr e ↦ rw e (replace-any w v.id ws ∙ apart, replace-AreDistinct w ws h)
]

remove_first-none :
    (id i : ℕ) (ws : List Waiter)
    → any (is_waiter i) ws ≡ false
    → any (is_waiter i) (remove_first id ws) ≡ false
unfolding remove_first
remove_first-none id i [] h = refl
remove_first-none id i (v ∷ ws) h = ground (arith, remove_first-none id i ws (ground arith))

pub remove_first-AreDistinct :
    (id : ℕ) (ws : List Waiter) → AreDistinct ws → AreDistinct (remove_first id ws)
unfolding remove_first
remove_first-AreDistinct id [] h = tt
remove_first-AreDistinct id (v ∷ ws) (apart, h) = elim (Bool-cases (v.id == id)) [
  | inl e ↦ rw e h
  | inr e ↦ rw e (remove_first-none id v.id ws apart, remove_first-AreDistinct id ws h)
]

pub replace-All :
    (P : Waiter → Type 0) (w : Waiter) (ws : List Waiter) → P w → All P ws → All P (replace w ws)
unfolding replace
replace-All P w [] p h = tt
replace-All P w (v ∷ ws) p h = elim (Bool-cases (v.id == w.id)) [
  | inl e ↦ rw e (p, h.1)
  | inr e ↦ rw e (h.0, replace-All P w ws p h.1)
]

pub remove_first-All :
    (P : Waiter → Type 0) (id : ℕ) (ws : List Waiter) → All P ws → All P (remove_first id ws)
unfolding remove_first
remove_first-All P id [] h = tt
remove_first-All P id (v ∷ ws) h = elim (Bool-cases (v.id == id)) [
  | inl e ↦ rw e h.1
  | inr e ↦ rw e (h.0, remove_first-All P id ws h.1)
]
