-- ===== src/Store/Due.antt =====
-- The pages that are due, in their order and up to a limit (the SELECT of `ClaimDueNotifications` of
-- internal/store/notifications.go).
use kerberon.Base.{
  ℕ, zero, suc, ◌==◌, ◌≡◌, refl, ◌∙◌, Bool, true, false, List, [], ◌∷◌, take, filter, any,
  if◌then◌else◌, arith, All, All-map, All-take, Bool-cases, inl, inr,
}
use kerberon.Base.Sort.{insert, insert-any, sort, sort-All, sort-any}
use kerberon.Core.Time.{Time, Duration}
use kerberon.Core.Records.{Notification}
use kerberon.Store.Notifications.{notification_is, claims, claimable, attempted_before, due_pages}

-- No two rows have one id.
abbrev pub Apart : List Notification → Type 0
Apart [] = Unit
Apart (n ∷ rows) = (any (notification_is n.id) rows ≡ false) × Apart rows

filter-both :
    (P : Notification → Type 0) (q : Notification → Bool) (rows : List Notification)
    → All P rows
    → All (λ n. (q n ≡ true) × P n) (filter q rows)
filter-both P q [] h = tt
filter-both P q (n ∷ rows) h = elim (Bool-cases (q n)) [
  | inl e ↦ rw e ((e, h.0), filter-both P q rows h.1)
  | inr e ↦ rw e (filter-both P q rows h.1)
]

-- ─── The pages found ───

pub own_row :
    (rows : List Notification)
    → All (λ n. claims n.id n ≡ true → any (claims n.id) rows ≡ true) rows
own_row [] = tt
own_row (r ∷ rows) = (
  λ c. rw c refl,
  All-map (λ n. claims n.id n ≡ true → any (claims n.id) rows ≡ true)
      (λ n. claims n.id n ≡ true → any (claims n.id) (r ∷ rows) ≡ true) rows
      (λ n there c. let t = there c in ground (arith, t)) (own_row rows),
)

pub claimable-claims :
    (now : Time) (lease : Duration) (n : Notification)
    → claimable now lease n ≡ true
    → claims n.id n ≡ true
claimable-claims now lease n h = ground arith

filter-none :
    (q p : Notification → Bool) (rows : List Notification)
    → any q rows ≡ false
    → any q (filter p rows) ≡ false
filter-none q p [] h = refl
filter-none q p (r ∷ rows) h = elim (Bool-cases (p r)) [
  | inl e ↦ let rest = filter-none q p rows (ground arith) in rw e (ground (arith, rest))
  | inr e ↦ rw e (filter-none q p rows (ground arith))
]

pub filter-Apart :
    (p : Notification → Bool) (rows : List Notification) → Apart rows → Apart (filter p rows)
filter-Apart p [] h = tt
filter-Apart p (r ∷ rows) h = elim (Bool-cases (p r)) [
  | inl e ↦ rw e (filter-none (notification_is r.id) p rows h.0, filter-Apart p rows h.1)
  | inr e ↦ rw e (filter-Apart p rows h.1)
]

take-none :
    (q : Notification → Bool) (k : ℕ) (rows : List Notification)
    → any q rows ≡ false
    → any q (take k rows) ≡ false
take-none q zero rows h = refl
take-none q (suc k) [] h = refl
take-none q (suc k) (r ∷ rows) h =
    let rest = take-none q k rows (ground arith) in ground (arith, rest)

pub take-Apart : (k : ℕ) (rows : List Notification) → Apart rows → Apart (take k rows)
take-Apart zero rows h = tt
take-Apart (suc k) [] h = tt
take-Apart (suc k) (r ∷ rows) h =
    (take-none (notification_is r.id) k rows h.0, take-Apart k rows h.1)

insert-Apart :
    (n : Notification) (rows : List Notification)
    → any (notification_is n.id) rows ≡ false
    → Apart rows
    → Apart (insert attempted_before n rows)
unfolding insert
insert-Apart n [] h a = (refl, tt)
insert-Apart n (r ∷ rows) h a = elim (Bool-cases (attempted_before n r)) [
  | inl e ↦ rw e (h, a)
  | inr e ↦
      let other : notification_is r.id n ≡ false = ground arith in
      rw e (
        insert-any attempted_before (notification_is r.id) n rows ∙ ground (arith, other, a.0),
        insert-Apart n rows (ground arith) a.1,
      )
]

pub sort-Apart : (rows : List Notification) → Apart rows → Apart (sort attempted_before rows)
unfolding sort
sort-Apart [] h = tt
sort-Apart (r ∷ rows) h =
    insert-Apart r (sort attempted_before rows)
      (sort-any attempted_before (notification_is r.id) rows ∙ h.0) (sort-Apart rows h.1)

pub due-All :
    (P : Notification → Type 0) (now : Time) (lease : Duration) (limit : ℕ)
    (rows : List Notification)
    → All P rows
    → All (λ n. (claimable now lease n ≡ true) × P n) (due_pages now lease limit rows)
due-All P now lease limit rows h =
    All-take (λ n. (claimable now lease n ≡ true) × P n) (if limit == 0 then 1 else limit)
      (sort attempted_before (filter (claimable now lease) rows))
      (sort-All attempted_before (λ n. (claimable now lease n ≡ true) × P n)
        (filter (claimable now lease) rows) (filter-both P (claimable now lease) rows h))
