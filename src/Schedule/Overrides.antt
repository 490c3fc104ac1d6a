-- ===== src/Schedule/Overrides.antt =====
-- Overrides beside the rotation and beside each other (internal/schedule/schedule.go).
use kerberon.Base.{
  ℕ, suc, get_elem?, ltb, ◌≡◌, refl, ◌∙◌, ◌⊎◌, inl, inr, String, Bool, true, false, Option, none,
  some, List, [], ◌∷◌, if◌then◌else◌, leb→le, ◌≤◌, arith, any, All, Bool-cases, ◌&&◌,
}
use kerberon.Base.Sort.{sort, IsSorted, sort-IsSorted, sort-any, sort-All, All-sort}
use kerberon.Core.Time.{Time}
use kerberon.Core.Records.{Override}
use kerberon.Schedule.Resolver.{
  Schedule, created_le, new_resolver, in_force, override_at, at, layer_at,
}

module _ (name : String) (t : Time) where
  -- The override that decides: in force, from the list, and the latest of those in force.
  abbrev pub Decides : List Override → Override → Type 1
  Decides os w =
      (in_force name t w ≡ true)
      × ((P : Override → Type 0) → All P os → P w)
      × All (λ o. in_force name t o ≡ true → o.created_at ≤ w.created_at) os

  head-Decides :
      (o : Override) (os : List Override)
      → in_force name t o ≡ true
      → any (in_force name t) os ≡ false
      → Decides (o ∷ os) o
  head-Decides o os e none_after = (e, λ P a. a.0, (λ _. omega arith, none-All os none_after))
    where
      none-All :
          (xs : List Override)
          → any (in_force name t) xs ≡ false
          → All (λ x. in_force name t x ≡ true → x.created_at ≤ o.created_at) xs
      none-All [] h = tt
      none-All (x ∷ xs) h = (λ e. absurd (ground arith), none-All xs (ground arith))

  tail-Decides :
      (o w : Override) (os : List Override)
      → IsSorted created_le (o ∷ os)
      → Decides os w
      → Decides (o ∷ os) w
  tail-Decides o w os s (e, mem, latest) =
      (e, λ P a. mem P a.1, (λ _. leb→le _ _ (mem (λ y. created_le o y ≡ true) s.0), latest))

  none-override_at :
      (os : List Override) (found : Option String)
      → any (in_force name t) os ≡ false
      → override_at name t found os ≡ found
  unfolding override_at
  none-override_at [] found h = refl
  none-override_at (o ∷ os) found h = ground (arith, none-override_at os found)

  override_at-Decides :
      (os : List Override) (found : Option String)
      → IsSorted created_le os
      → any (in_force name t) os ≡ true
      → (w : Override) × (override_at name t found os ≡ some w.user_id) × Decides os w
  unfolding override_at
  override_at-Decides [] found s h = absurd (cc h)
  override_at-Decides (o ∷ os) found s h = elim (Bool-cases (any (in_force name t) os)) [
    | inl later ↦
        let (w, e, d) =
          override_at-Decides os (if in_force name t o then some o.user_id else found) s.1 later in
        (w, e, tail-Decides o w os s d)
    | inr none_after ↦
        let mine : in_force name t o ≡ true = ground arith in
        (o, none-override_at os _ none_after ∙ rw mine refl, head-Decides o os mine none_after)
  ]

created_le-total : (a b : Override) → created_le a b ≡ false → created_le b a ≡ true
created_le-total a b h = ground arith

created_le_trans :
    (a b c : Override) → created_le a b ≡ true → created_le b c ≡ true → created_le a c ≡ true
created_le_trans a b c h k = ground arith

-- Made later than the one that decides, and in force.
abbrev pub beats : String → Time → Override → Override → Bool
beats name t w o = in_force name t o && ltb w.created_at o.created_at

-- An override of the list that is in force, and that no other in force was made after.
abbrev pub Latest : String → Time → List Override → Override → Type 0
Latest name t overrides w =
    ((i : ℕ) × (get_elem? overrides i ≡ some w))
    × (in_force name t w ≡ true)
    × (any (beats name t w) overrides ≡ false)

abbrev Within : List Override → Override → Type 0
Within os o = (i : ℕ) × (get_elem? os i ≡ some o)

later-Within :
    (o : Override) (os rows : List Override) → All (Within os) rows → All (Within (o ∷ os)) rows
later-Within o os [] a = tt
later-Within o os (x ∷ rows) a = ((suc a.0.0, a.0.1), later-Within o os rows a.1)

All-Within : (os : List Override) → All (Within os) os
All-Within [] = tt
All-Within (o ∷ os) = ((0, refl), later-Within o os os (All-Within os))

none-beats :
    (name : String) (t : Time) (w : Override) (os : List Override)
    → All (λ o. in_force name t o ≡ true → o.created_at ≤ w.created_at) os
    → any (beats name t w) os ≡ false
none-beats name t w [] a = refl
none-beats name t w (o ∷ os) a = ground (arith, a.0, none-beats name t w os a.1)

sorted-override_at :
    (name : String) (t : Time) (overrides : List Override)
    → any (in_force name t) overrides ≡ true
    → (w : Override) × (override_at name t none (sort created_le overrides) ≡ some w.user_id)
      × Latest name t overrides w
sorted-override_at name t overrides h =
    let (w, e, (covers, mem, latest)) =
      override_at-Decides name t (sort created_le overrides) none
        (sort-IsSorted created_le created_le-total created_le_trans overrides)
        (sort-any created_le (in_force name t) overrides ∙ h) in
    (
      w,
      e,
      (
        mem (Within overrides)
            (sort-All created_le (Within overrides) overrides (All-Within overrides)),
        covers,
        none-beats name t w overrides (All-sort created_le _ overrides latest),
      ),
    )

-- Who is on call at an instant: the user of an override of the schedule that covers it, such that none
-- that covers it was made later; or, where no override covers it, whoever the layers put on call, or
-- nobody.
pub at-Latest :
    (s : Schedule) (overrides : List Override) (t : Time)
    → ((w : Override) × (at (new_resolver s overrides) t ≡ some w.user_id)
        × Latest s.name t overrides w)
      ⊎ ((any (in_force s.name t) overrides ≡ false)
          × (at (new_resolver s overrides) t ≡ layer_at t s.layers))
unfolding at new_resolver
at-Latest s overrides t = elim (Bool-cases (any (in_force s.name t) overrides)) [
  | inl h ↦ let (w, e, l) = sorted-override_at s.name t overrides h in inl (w, rw (e, at) refl, l)
  | inr h ↦
      let nothing_found =
        none-override_at s.name t (sort created_le overrides) none
          (sort-any created_le (in_force s.name t) overrides ∙ h) in
      inr (h, rw (nothing_found, at) refl)
]
