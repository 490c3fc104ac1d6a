-- ===== src/Store/Soonest.antt =====
-- The order and the number of the pages that are due (ORDER BY and LIMIT in `ClaimDueNotifications` of
-- internal/store/notifications.go).
use kerberon.Base.{
  min, Option, none, some, ◌⊎◌, ℕ, zero, suc, ◌==◌, ◌≡◌, refl, ap, ◌∙◌, Bool, true, false, List, [],
  ◌∷◌, take, filter, any, length, count, if◌then◌else◌, arith, All, Bool-cases, inl, inr,
}
use kerberon.Base.Sort.{insert, sort, All-sort, IsSorted, sort-IsSorted, take-IsSorted}
use kerberon.Core.Time.{Time, Duration}
use kerberon.Core.Records.{Notification}
use kerberon.Store.Notifications.{
  notification_is, claimable, attempt_order, attempted_before, due_pages,
}

attempt_order_total :
    (o p : Option Time) (i j : ℕ) → attempt_order o p i j ≡ false → attempt_order p o j i ≡ true
attempt_order_total none none i j h = ground arith
attempt_order_total none (some u) i j h = ground arith
attempt_order_total (some t) none i j h = ground arith
attempt_order_total (some t) (some u) i j h = ground arith

attempt_order_trans :
    (o p q : Option Time) (i j k : ℕ)
    → attempt_order o p i j ≡ true
    → attempt_order p q j k ≡ true
    → attempt_order o q i k ≡ true
attempt_order_trans none none none i j k h g = ground arith
attempt_order_trans none none (some v) i j k h g = refl
attempt_order_trans none (some u) none i j k h g = absurd (cc g)
attempt_order_trans none (some u) (some v) i j k h g = refl
attempt_order_trans (some t) none q i j k h g = absurd (cc h)
attempt_order_trans (some t) (some u) none i j k h g = absurd (cc g)
attempt_order_trans (some t) (some u) (some v) i j k h g = ground arith

-- In the list, or after all of it.
abbrev pub OrLater : List Notification → Notification → Type 0
OrLater found r =
    (any (notification_is r.id) found ≡ true) ⊎ All (λ f. attempted_before f r ≡ true) found

everywhere :
    (P : Notification → Type 0) (rows : List Notification) → ((r : Notification) → P r) → All P rows
everywhere P [] h = tt
everywhere P (r ∷ rows) h = (h r, everywhere P rows h)

one_more :
    (x : Notification) (found rows : List Notification)
    → All (λ r. attempted_before x r ≡ true) rows
    → All (OrLater found) rows
    → All (OrLater (x ∷ found)) rows
one_more x found [] s h = tt
one_more x found (r ∷ rows) s h = (
  elim (h.0) [ inl a ↦ inl (ground (arith, a)) | inr b ↦ inr (s.0, b) ],
  one_more x found rows s.1 h.1,
)

take-OrLater :
    (k : ℕ) (rows : List Notification)
    → IsSorted attempted_before rows
    → All (OrLater (take k rows)) rows
take-OrLater zero rows s = everywhere (OrLater []) rows (λ r. inr tt)
take-OrLater (suc k) [] s = tt
take-OrLater (suc k) (x ∷ rows) s =
    (inl (ground arith), one_more x (take k rows) rows s.0 (take-OrLater k rows s.1))

All-filter :
    (P : Notification → Type 0) (q : Notification → Bool) (rows : List Notification)
    → All P (filter q rows)
    → All (λ r. q r ≡ true → P r) rows
All-filter P q [] h = tt
All-filter P q (r ∷ rows) h = elim (Bool-cases (q r)) [
  | inl e ↦ let (a, b) : P r × All P (filter q rows) = rw e at h in (λ c. a, All-filter P q rows b)
  | inr e ↦ (λ c. absurd (cc (e, c)), All-filter P q rows (rw e at h))
]

length-insert :
    (n : Notification) (rows : List Notification)
    → length (insert attempted_before n rows) ≡ suc (length rows)
unfolding insert
length-insert n [] = refl
length-insert n (r ∷ rows) = ground (arith, length-insert n rows)

length-sort : (rows : List Notification) → length (sort attempted_before rows) ≡ length rows
unfolding sort
length-sort [] = refl
length-sort (r ∷ rows) =
    omega (arith, length-insert r (sort attempted_before rows), length-sort rows)

length-filter :
    (q : Notification → Bool) (rows : List Notification) → length (filter q rows) ≡ count q rows
length-filter q [] = refl
length-filter q (r ∷ rows) = ground (arith, length-filter q rows)

length-take : (k : ℕ) (rows : List Notification) → length (take k rows) ≡ min k (length rows)
length-take zero rows = omega arith
length-take (suc k) [] = omega arith
length-take (suc k) (r ∷ rows) = omega (arith, length-take k rows)

-- The first so many of the rows that can be claimed, in their order: every other such row is after them.
pub record AreFirst (now : Time) (lease : Duration) (k : ℕ) (rows found : List Notification)
    : Type 0 where
  pub many : length found ≡ min k (count (claimable now lease) rows)
  pub ordered : IsSorted attempted_before found
  pub first : All (λ r. claimable now lease r ≡ true → OrLater found r) rows

pub due_pages-AreFirst :
    (now : Time) (lease : Duration) (limit : ℕ) (rows : List Notification)
    → AreFirst now lease (if limit == 0 then 1 else limit) rows (due_pages now lease limit rows)
due_pages-AreFirst now lease limit rows =
    let k = if limit == 0 then 1 else limit in
    let there = filter (claimable now lease) rows in
    let sorted =
      sort-IsSorted attempted_before
        (λ a b h. attempt_order_total a.next_attempt_at b.next_attempt_at a.id b.id h)
        (λ a b c h g.
          attempt_order_trans a.next_attempt_at b.next_attempt_at c.next_attempt_at a.id b.id c.id h
            g)
        there in
    record {
      many =
          length-take k (sort attempted_before there)
          ∙ ap (min k) (length-sort there ∙ length-filter (claimable now lease) rows);
      ordered = take-IsSorted attempted_before k (sort attempted_before there) sorted;
      first =
          All-filter (OrLater (take k (sort attempted_before there))) (claimable now lease) rows (
            All-sort attempted_before (OrLater (take k (sort attempted_before there))) there
              (take-OrLater k (sort attempted_before there) sorted));
    }
