-- ===== src/Base/Sort.antt =====
-- Insertion sort by a Boolean order: `ORDER BY` of a query, and Go's stable sort.
use mathlib.Core.List.{Perm}
use mathlib.Core.List.Perm
use mathlib.Core.Path.{◌≡◌, refl, ap, ◌∙◌}
use mathlib.Core.Bool.{Bool, true, false, ◌||◌}
use mathlib.Core.Logic.{inl, inr}
use mathlib.Core.List.{List, [], ◌∷◌}
use native.Mathlib.Omega.{arith}
use kerberon.Base.Tests.{if◌then◌else◌, Bool-cases}
use kerberon.Base.Lists.{All, All-take, take, any}
use Prim.Native.Nat.{ℕ, zero, suc}

module _ {ℓ} {A : Type ℓ} (le : A → A → Bool) where
  unfoldable pub insert : A → List A → List A
  insert a [] = a ∷ []
  insert a (x ∷ xs) = let rest = insert a xs in if le a x then a ∷ x ∷ xs else x ∷ rest

  unfoldable pub sort : List A → List A
  unfolding insert
  sort [] = []
  sort (x ∷ xs) = insert x (sort xs)

  -- Each element stands before all that follow it.
  abbrev pub IsSorted : List A → Type ℓ
  IsSorted [] = Unit
  IsSorted (x ∷ xs) = All (λ y. le x y ≡ true) xs × IsSorted xs

  pub insert-All {κ} : (P : A → Type κ) (a : A) (xs : List A) → P a → All P xs → All P (insert a xs)
  unfolding insert
  insert-All P a [] p h = (p, tt)
  insert-All P a (x ∷ xs) p h = elim (Bool-cases (le a x)) [
    | inl e ↦ rw e (p, h)
    | inr e ↦ rw e (h.0, insert-All P a xs p h.1)
  ]

  pub sort-All {κ} : (P : A → Type κ) (xs : List A) → All P xs → All P (sort xs)
  unfolding sort
  sort-All P [] h = tt
  sort-All P (x ∷ xs) h = insert-All P x (sort xs) h.0 (sort-All P xs h.1)

  All-insert {κ} : (P : A → Type κ) (a : A) (xs : List A) → All P (insert a xs) → P a × All P xs
  unfolding insert
  All-insert P a [] h = (h.0, tt)
  All-insert P a (x ∷ xs) h = elim (Bool-cases (le a x)) [
    | inl e ↦ rw (e, insert) at h
    | inr e ↦
        let (p, rest) : P x × All P (insert a xs) = rw (e, insert) at h in
        let (q, r) = All-insert P a xs rest in (q, (p, r))
  ]

  -- What holds of the sorted rows holds of the rows.
  pub All-sort {κ} : (P : A → Type κ) (xs : List A) → All P (sort xs) → All P xs
  unfolding sort
  All-sort P [] h = tt
  All-sort P (x ∷ xs) h = let (p, rest) = All-insert P x (sort xs) h in (p, All-sort P xs rest)

  pub insert-any : (q : A → Bool) (a : A) (xs : List A) → any q (insert a xs) ≡ (q a || any q xs)
  unfolding insert
  insert-any q a [] = refl
  insert-any q a (x ∷ xs) = ground (arith, insert-any q a xs)

  pub sort-any : (q : A → Bool) (xs : List A) → any q (sort xs) ≡ any q xs
  unfolding sort
  sort-any q [] = refl
  sort-any q (x ∷ xs) = insert-any q x (sort xs) ∙ ap (λ b. q x || b) (sort-any q xs)

  pub take-IsSorted : (n : ℕ) (xs : List A) → IsSorted xs → IsSorted (take n xs)
  take-IsSorted zero xs s = tt
  take-IsSorted (suc n) [] s = tt
  take-IsSorted (suc n) (x ∷ xs) s =
      (All-take (λ y. le x y ≡ true) n xs s.0, take-IsSorted n xs s.1)

  insert-perm : (a : A) (xs : List A) → Perm (insert a xs) (a ∷ xs)
  unfolding insert
  insert-perm a [] = Perm.refl (a ∷ [])
  insert-perm a (x ∷ xs) = elim (Bool-cases (le a x)) [
    | inl e ↦ rw e (Perm.refl (a ∷ x ∷ xs))
    | inr e ↦ rw e (Perm.trans (Perm.cons x (insert-perm a xs)) (Perm.swap a x xs))
  ]

  -- Sorting neither loses nor adds a row.
  pub sort-perm : (xs : List A) → Perm (sort xs) xs
  unfolding sort
  sort-perm [] = Perm.refl []
  sort-perm (x ∷ xs) = Perm.trans (insert-perm x (sort xs)) (Perm.cons x (sort-perm xs))

  module _ (total : (a b : A) → le a b ≡ false → le b a ≡ true)
      (trans : (a b c : A) → le a b ≡ true → le b c ≡ true → le a c ≡ true) where
    All-trans :
        (a b : A) (xs : List A)
        → le a b ≡ true
        → All (λ y. le b y ≡ true) xs
        → All (λ y. le a y ≡ true) xs
    All-trans a b [] h t = tt
    All-trans a b (x ∷ xs) h t = (trans a b x h t.0, All-trans a b xs h t.1)

    insert-IsSorted : (a : A) (xs : List A) → IsSorted xs → IsSorted (insert a xs)
    unfolding insert
    insert-IsSorted a [] s = (tt, tt)
    insert-IsSorted a (x ∷ xs) s = elim (Bool-cases (le a x)) [
      | inl e ↦ rw e ((e, All-trans a x xs e s.0), s)
      | inr e ↦
          rw e (insert-All (λ y. le x y ≡ true) a xs (total a x e) s.0, insert-IsSorted a xs s.1)
    ]

    pub sort-IsSorted : (xs : List A) → IsSorted (sort xs)
    unfolding sort
    sort-IsSorted [] = tt
    sort-IsSorted (x ∷ xs) = insert-IsSorted x (sort xs) (sort-IsSorted xs)
