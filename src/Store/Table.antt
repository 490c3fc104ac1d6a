-- ===== src/Store/Table.antt =====
-- A table as the list of its rows in the order of their ids, and what the statements of
-- internal/store do to one. `WHERE` is a Boolean test on a row.
use kerberon.Base.{
  ℕ, suc, ◌≤◌, max, ◌≡◌, refl, ap, subst, Bool, true, false, Option, none, some, List, [], ◌∷◌,
  ◌++◌, arith, if◌then◌else◌, count, find, any, All, Bool-cases, inl, inr, length,
}

module _ {ℓ} {A : Type ℓ} where
  -- UPDATE ... SET ... WHERE p
  abbrev pub update : (A → Bool) → (A → A) → List A → List A
  update p f [] = []
  update p f (r ∷ rows) = (if p r then f r else r) ∷ update p f rows

  -- The largest id in use.
  abbrev pub max_id : (A → ℕ) → List A → ℕ
  max_id id [] = 0
  max_id id (r ∷ rows) = max (id r) (max_id id rows)

  -- SQLite gives a new row the successor of the largest rowid.
  abbrev pub next_id : (A → ℕ) → List A → ℕ
  next_id id rows = suc (max_id id rows)

  abbrev pub map_opt {κ} : {B : Type κ} → (A → B) → Option A → Option B
  map_opt f none = none
  map_opt f (some a) = some (f a)

  -- A write that keeps what a search looks at changes the row that the search finds, and no other.
  pub find-update :
      (q p : A → Bool) (f : A → A) (rows : List A)
      → ((r : A) → q (f r) ≡ q r)
      → find q (update p f rows) ≡ map_opt (λ r. if p r then f r else r) (find q rows)
  find-update q p f [] keep = refl
  find-update q p f (r ∷ rows) keep = ground (arith, keep r, find-update q p f rows keep)

  pub any-update :
      (q p : A → Bool) (f : A → A) (rows : List A)
      → ((r : A) → q (f r) ≡ q r)
      → any q (update p f rows) ≡ any q rows
  any-update q p f [] keep = refl
  any-update q p f (r ∷ rows) keep = ground (arith, keep r, any-update q p f rows keep)

  pub count-update :
      (q p : A → Bool) (f : A → A) (rows : List A)
      → ((r : A) → q (f r) ≡ q r)
      → count q (update p f rows) ≡ count q rows
  count-update q p f [] keep = refl
  count-update q p f (r ∷ rows) keep = ground (arith, keep r, count-update q p f rows keep)

  -- A write that makes no new row match leaves at most as many as before.
  pub count-update-le :
      (q p : A → Bool) (f : A → A) (rows : List A)
      → ((r : A) → q (if p r then f r else r) ≡ true → q r ≡ true)
      → count q (update p f rows) ≤ count q rows
  count-update-le q p f [] less = omega arith
  count-update-le q p f (r ∷ rows) less = ground (arith, less r, count-update-le q p f rows less)

  pub max_id-update :
      (id : A → ℕ) (p : A → Bool) (f : A → A) (rows : List A)
      → ((r : A) → id (f r) ≡ id r)
      → max_id id (update p f rows) ≡ max_id id rows
  max_id-update id p f [] keep = refl
  max_id-update id p f (r ∷ rows) keep = ground (arith, keep r, max_id-update id p f rows keep)

  pub max_id-append :
      (id : A → ℕ) (rows : List A) (a : A)
      → max_id id (rows ++ a ∷ []) ≡ max (max_id id rows) (id a)
  max_id-append id [] a = omega arith
  max_id-append id (r ∷ rows) a = omega (arith, max_id-append id rows a)

  -- After a write that takes every match out of the search, nothing is found.
  pub count-update-zero :
      (q p : A → Bool) (f : A → A) (rows : List A)
      → ((r : A) → q (if p r then f r else r) ≡ false)
      → count q (update p f rows) ≡ 0
  count-update-zero q p f [] gone = refl
  count-update-zero q p f (r ∷ rows) gone =
      ground (arith, gone r, count-update-zero q p f rows gone)

  pub All-update {κ} :
      (P : A → Type κ) (p : A → Bool) (f : A → A) (rows : List A)
      → ((r : A) → P r → P (if p r then f r else r))
      → All P rows
      → All P (update p f rows)
  All-update P p f [] keep h = tt
  All-update P p f (r ∷ rows) keep h = (keep r h.0, All-update P p f rows keep h.1)

  pub any-append :
      (q : A → Bool) (xs : List A) (a : A) → any q xs ≡ true → any q (xs ++ a ∷ []) ≡ true
  any-append q (x ∷ xs) a h = ground (arith, any-append q xs a)
  any-append q [] a h = ground arith

  pub count-any : (q : A → Bool) (rows : List A) → any q rows ≡ false → count q rows ≡ 0
  count-any q [] h = refl
  count-any q (r ∷ rows) h = ground (arith, count-any q rows)

  pub find-any : (q : A → Bool) (rows : List A) {r : A} → find q rows ≡ some r → any q rows ≡ true
  find-any q [] h = ground arith
  find-any q (x ∷ rows) {r} h = ground (arith, find-any q rows {r = r})

  pub find-none : (q : A → Bool) (rows : List A) → find q rows ≡ none → any q rows ≡ false
  find-none q [] h = refl
  find-none q (x ∷ rows) h = ground (arith, find-none q rows)

  pub find-true : (q : A → Bool) (rows : List A) {r : A} → find q rows ≡ some r → q r ≡ true
  find-true q [] h = ground arith
  find-true q (x ∷ rows) {r} h = ground (arith, find-true q rows {r = r})

  pub find-All {κ} :
      (P : A → Type κ) (q : A → Bool) (rows : List A) {r : A}
      → All P rows
      → find q rows ≡ some r
      → P r
  find-All P q [] a h = absurd (cc h)
  find-All P q (x ∷ rows) {r} a h = elim (Bool-cases (q x)) [
    | inl e ↦ let same : x ≡ r = ground arith in subst P same a.0
    | inr e ↦ find-All P q rows a.1 (ground arith)
  ]

  pub find-append :
      (q : A → Bool) (rows more : List A) {r : A}
      → find q rows ≡ some r
      → find q (rows ++ more) ≡ some r
  find-append q [] more h = absurd (cc h)
  find-append q (x ∷ rows) more {r} h = ground (arith, find-append q rows more {r = r})

  pub any-last : (q : A → Bool) (rows : List A) (a : A) → q a ≡ true → any q (rows ++ a ∷ []) ≡ true
  any-last q [] a h = ground arith
  any-last q (r ∷ rows) a h = ground (arith, any-last q rows a h)

  pub length-update :
      (p : A → Bool) (f : A → A) (rows : List A) → length (update p f rows) ≡ length rows
  length-update p f [] = refl
  length-update p f (r ∷ rows) = ap suc (length-update p f rows)

  -- A write that spares what a search looks for leaves the search's answer as it was.
  pub find-update_spared :
      (q p : A → Bool) (f : A → A) (rows : List A)
      → ((r : A) → q (f r) ≡ q r)
      → ((r : A) → q r ≡ true → p r ≡ false)
      → find q (update p f rows) ≡ find q rows
  find-update_spared q p f [] keep spared = refl
  find-update_spared q p f (r ∷ rows) keep spared =
      ground (arith, keep r, spared r, find-update_spared q p f rows keep spared)
