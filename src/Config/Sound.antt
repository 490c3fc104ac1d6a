-- ===== src/Config/Sound.antt =====
-- What it means that the checks of internal/config/validate.go report nothing.
use kerberon.Base.{
  ℕ, zero, suc, ◌≡◌, refl, sym, ap, ◌∙◌, subst, String, str_eq, Bool, true, false, none, some, List,
  [], ◌∷◌, ◌++◌, All, All-map, Bool-cases, Option-cases, inl, inr, get_elem?,
}
use kerberon.Config.Problem.{
  Problem, Place, Message, report_if, each, seen_at, name_problems, mark, entries,
}

-- Nothing is reported by two checks exactly when neither reports anything.
pub nothing-append : (xs ys : List Problem) → xs ++ ys ≡ [] → (xs ≡ []) × (ys ≡ [])
nothing-append [] ys h = (refl, h)
nothing-append (x ∷ xs) ys h = absurd (cc h)

pub nothing-report_if :
    (bad : Bool) (place : Place) (part : String) (m : Message)
    → report_if bad place part m ≡ []
    → bad ≡ false
nothing-report_if true place part m h = absurd (cc h)
nothing-report_if false place part m h = refl

pub nothing-each :
    {A : Type 0} (f : ℕ → A → List Problem) (i : ℕ) (xs : List A)
    → each f i xs ≡ []
    → All (λ x. (k : ℕ) × (f k x ≡ [])) xs
unfolding each
nothing-each f i [] h = tt
nothing-each f i (x ∷ xs) h =
    let (here, rest) = nothing-append (f i x) (each f (suc i) xs) h in
    ((i, here), nothing-each f (suc i) xs rest)

pub All-get_elem? {ℓ κ} :
    {A : Type ℓ} (P : A → Type κ) (xs : List A) (i : ℕ) {x : A}
    → All P xs
    → get_elem? xs i ≡ some x
    → P x
All-get_elem? P [] i a h = absurd (cc h)
All-get_elem? P (y ∷ xs) zero {x} a h = let same : y ≡ x = cc h in subst P same a.0
All-get_elem? P (y ∷ xs) (suc i) a h = All-get_elem? P xs i a.1 h

-- No name comes twice.
abbrev pub Distinct {ℓ} : {A : Type ℓ} → (A → String) → List A → Type 0
Distinct name_of [] = Unit
Distinct name_of (x ∷ xs) =
    All (λ y. str_eq (name_of x) (name_of y) ≡ false) xs × Distinct name_of xs

nothing-name_problems :
    (place : Place) (part : String) (seen : List (String × ℕ)) (n : String) (i : ℕ)
    → name_problems place part seen n ≡ []
    → (seen_at n seen ≡ none) × (mark seen n i ≡ (n, i) ∷ seen)
nothing-name_problems place part seen n i h = elim (Bool-cases (str_eq n "")) [
  | inl e ↦ absurd (cc (rw e at h))
  | inr e ↦ elim (Option-cases (seen_at n seen)) [
    | inl f ↦ (f, rw (e, f) refl)
    | inr (prev, f) ↦ absurd (cc (rw (e, f) at h))
  ]
]

unseen :
    (n m : String) (i : ℕ) (seen : List (String × ℕ))
    → seen_at n ((m, i) ∷ seen) ≡ none
    → (str_eq m n ≡ false) × (seen_at n seen ≡ none)
unfolding seen_at
unseen n m i seen e = elim (Bool-cases (str_eq m n)) [
  | inl f ↦ absurd (cc (rw f at e))
  | inr f ↦ (f, rw f at e)
]

module _ {A : Type 0} (place : ℕ → Place) (part : String) (name_of : A → String)
    (others : ℕ → A → List Problem) where
  names_apart :
      (i : ℕ) (seen : List (String × ℕ)) (xs : List A)
      → entries place part name_of others i seen xs ≡ []
      → All (λ x. seen_at (name_of x) seen ≡ none) xs
        × Distinct name_of xs
        × All (λ x. (k : ℕ) × (others k x ≡ [])) xs
  unfolding entries seen_at
  names_apart i seen [] h = (tt, tt, tt)
  names_apart i seen (x ∷ xs) h =
      let (here, rest) =
        nothing-append (name_problems (place i) part seen (name_of x) ++ others i x)
          (entries place part name_of others (suc i) (mark seen (name_of x) i) xs) h in
      let (named, checked) =
        nothing-append (name_problems (place i) part seen (name_of x)) (others i x) here in
      let (fresh, marked) = nothing-name_problems (place i) part seen (name_of x) i named in
      let (later, apart, fine_all) =
        names_apart (suc i) ((name_of x, i) ∷ seen) xs
          (ap (λ m. entries place part name_of others (suc i) m xs) (sym marked) ∙ rest) in
      let both = λ (y : A) (e : seen_at (name_of y) ((name_of x, i) ∷ seen) ≡ none).
        unseen (name_of y) (name_of x) i seen e in
      (
        (
          fresh,
          All-map (λ y. seen_at (name_of y) ((name_of x, i) ∷ seen) ≡ none)
              (λ y. seen_at (name_of y) seen ≡ none) xs (λ y e. (both y e).1) later,
        ),
        (
          All-map (λ y. seen_at (name_of y) ((name_of x, i) ∷ seen) ≡ none)
              (λ y. str_eq (name_of x) (name_of y) ≡ false) xs (λ y e. (both y e).0) later,
          apart,
        ),
        ((i, checked), fine_all),
      )

  -- Where nothing is reported of some entries, no two have one name, and nothing is reported of any.
  pub nothing-entries :
      (xs : List A)
      → entries place part name_of others 0 [] xs ≡ []
      → Distinct name_of xs × All (λ x. (k : ℕ) × (others k x ≡ [])) xs
  nothing-entries xs h = let (a, b, c) = names_apart 0 [] xs h in (b, c)
