-- ===== src/Base/Permuted.antt =====
-- A sort forgets the order in which the rows come.
use mathlib.Core.List.{Permᴰ}
use mathlib.Core.Path.{◌≡◌, refl, subst, ◌∙◌}
use mathlib.Core.Bool.{Bool, true, false}
use mathlib.Core.List.{List, [], ◌∷◌}
use native.Mathlib.Omega.{arith}
use kerberon.Base.Lists.{All}
use kerberon.Base.Sort.{sort, insert}

module _ {ℓ κ} {A : Type ℓ} (le : A → A → Bool) (total : (a b : A) → le a b ≡ false → le b a ≡ true)
    (trans : (a b c : A) → le a b ≡ true → le b c ≡ true → le a c ≡ true) (P : A → Type κ)
    (antisym : (a b : A) → P a → P b → le a b ≡ true → le b a ≡ true → a ≡ b) where
  insert-swap :
      (p q : A) (xs : List A)
      → P p
      → P q
      → insert le p (insert le q xs) ≡ insert le q (insert le p xs)
  unfolding insert
  insert-swap p q [] hp hq = ground (arith, total p q, antisym p q hp hq)
  insert-swap p q (x ∷ xs) hp hq = ground (
    arith,
    total p q,
    antisym p q hp hq,
    trans p q x,
    trans q p x,
    total p x,
    total q x,
    trans p x q,
    trans q x p,
    insert-swap p q xs hp hq,
  )

  pub sort-Permᴰ : {xs ys : List A} → Permᴰ xs ys → All P xs → All P ys × (sort le xs ≡ sort le ys)
  unfolding sort
  sort-Permᴰ Permᴰ.nil m = (tt, refl)
  sort-Permᴰ (Permᴰ.cons e p) m =
      let (rest, same) = sort-Permᴰ p m.1 in ((subst P e m.0, rest), λ i. insert le (e i) (same i))
  sort-Permᴰ (Permᴰ.swap {a} {b} {l = l} e f) m = (
    (subst P f m.1.0, (subst P e m.0, m.1.1)),
    insert-swap a b (sort le l) m.0 m.1.0 ∙ (λ i. insert le (f i) (insert le (e i) (sort le l))),
  )
  sort-Permᴰ (Permᴰ.trans p q) m =
      let (middle, first) = sort-Permᴰ p m in
      let (last, second) = sort-Permᴰ q middle in (last, first ∙ second)
