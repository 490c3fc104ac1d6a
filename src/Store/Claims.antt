-- ===== src/Store/Claims.antt =====
-- What a claim takes (`ClaimDueNotifications` of internal/store/notifications.go).
use kerberon.Base.{
  ℕ, ◌==◌, ◌≡◌, refl, ap, ◌∙◌, Bool, true, false, ◌||◌, List, [], ◌∷◌, map, filter, any, count,
  if◌then◌else◌, arith, All, All-map, Bool-cases, inl, inr,
}
use kerberon.Base.Sort.{sort}
use kerberon.Core.Time.{Time, Duration}
use kerberon.Core.Records.{Notification}
use kerberon.Store.Table.{update}
use kerberon.Store.Tx.{Db, ok}
use kerberon.Store.Due.{
  Apart, own_row, claimable-claims, filter-Apart, take-Apart, sort-Apart, due-All,
}
use kerberon.Store.Soonest.{AreFirst, due_pages-AreFirst}
use kerberon.Store.Notifications.{
  notification_is, claim, claims, claimable, claim_each, attempted_before, due_pages,
  claim_due_notifications,
}

-- A page as the claim returns it: a page with P that could be claimed, in `sending` and with one more attempt.
abbrev pub Claimed : (Notification → Type 0) → Time → Duration → Notification → Type 0
Claimed P now lease c = (n : Notification) × (claimable now lease n ≡ true) × P n × (c ≡ claim n)

-- ─── The loop over the pages found ───

-- A row with the id of one of the pages found, still to be sent.
abbrev pub taken : List Notification → Notification → Bool
taken found r = any (λ (n : Notification). claims n.id r) found

two_updates :
    (p q : Notification → Bool) (rows : List Notification)
    → ((r : Notification) → p r ≡ true → q (claim r) ≡ false)
    → update q claim (update p claim rows) ≡ update (λ r. p r || q r) claim rows
two_updates p q [] h = refl
two_updates p q (r ∷ rows) h = elim (Bool-cases (p r)) [
  | inl e ↦ let once = h r e in rw (e, once) (ap (λ t. claim r ∷ t) (two_updates p q rows h))
  | inr e ↦ rw e (ap (λ t. (if q r then claim r else r) ∷ t) (two_updates p q rows h))
]

not_taken :
    (found : List Notification) (n r : Notification)
    → any (notification_is n.id) found ≡ false
    → claims n.id r ≡ true
    → taken found (claim r) ≡ false
not_taken [] n r h c = refl
not_taken (m ∷ found) n r h c =
    let rest = not_taken found n r (ground arith) c in ground (arith, rest)

-- One update at a time, or all of them at once.
claim_each-update :
    (found rows : List Notification)
    → Apart found
    → (claim_each found rows).1 ≡ update (taken found) claim rows
unfolding claim_each
claim_each-update [] rows h = untouched rows
  where
    untouched : (rs : List Notification) → rs ≡ update (taken []) claim rs
    untouched [] = refl
    untouched (r ∷ rs) = ap (λ t. r ∷ t) (untouched rs)
claim_each-update (n ∷ found) rows (apart, h) =
    claim_each-update found (update (claims n.id) claim rows) h
    ∙ two_updates (claims n.id) (taken found) rows (λ r c. not_taken found n r apart c)

any-claim :
    (i j : ℕ) (rows : List Notification)
    → any (claims i) (update (claims j) claim rows) ≡ any (claims i) rows
any-claim i j [] = refl
any-claim i j (r ∷ rows) = elim (Bool-cases (claims j r)) [
  | inl e ↦ rw (e, any-claim i j rows) (ground arith)
  | inr e ↦ rw (e, any-claim i j rows) refl
]

count-some :
    (q : Notification → Bool) (rows : List Notification)
    → any q rows ≡ true
    → (count q rows == 0) ≡ false
count-some q [] h = absurd (cc h)
count-some q (r ∷ rows) h = elim (Bool-cases (q r)) [
  | inl e ↦ ground arith
  | inr e ↦ let rest = count-some q rows (rw e at h) in ground arith
]

-- None of the pages that are there is passed over.
claim_each-map :
    (found rows : List Notification)
    → All (λ n. any (claims n.id) rows ≡ true) found
    → (claim_each found rows).0 ≡ map claim found
unfolding claim_each
claim_each-map [] rows h = refl
claim_each-map (n ∷ found) rows h =
    let rest = claim_each-map found (update (claims n.id) claim rows) (
      All-map (λ m. any (claims m.id) rows ≡ true)
        (λ m. any (claims m.id) (update (claims n.id) claim rows) ≡ true) found
        (λ m there. any-claim m.id n.id rows ∙ there) h.1) in
    rw (count-some (claims n.id) rows h.0, claim_each) (ap (λ t. claim n ∷ t) rest)

map-All :
    (P Q : Notification → Type 0) (xs : List Notification)
    → ((n : Notification) → P n → Q (claim n))
    → All P xs
    → All Q (map claim xs)
map-All P Q [] f h = tt
map-All P Q (x ∷ xs) f h = (f x h.0, map-All P Q xs f h.1)

-- Where no two rows of the outbox have one id, a claim succeeds. Of the pages that can be claimed it takes the
-- first ones in the order of their next attempts, as many as there are up to the limit, which counts as one
-- where it is zero. It returns each of them in `sending` with one more attempt, with what every page of the
-- outbox has; the outbox has just their rows rewritten in this way, and the rest of the database is as it was.
pub claim_due_notifications-Claimed :
    (P : Notification → Type 0) (now : Time) (lease : Duration) (limit : ℕ) (db : Db)
    → Apart db.notifications
    → All P db.notifications
    → let found = due_pages now lease limit db.notifications in
      (claim_due_notifications now lease limit db
        ≡ ok (
          map claim found,
          record db { notifications = update (taken found) claim db.notifications },
        ))
      × AreFirst now lease (if limit == 0 then 1 else limit) db.notifications found
      × All (Claimed P now lease) (map claim found)
unfolding claim_due_notifications
claim_due_notifications-Claimed P now lease limit db apart h =
    let found = due_pages now lease limit db.notifications in
    let sorted = sort attempted_before (filter (claimable now lease) db.notifications) in
    let there =
      All-map
        (λ n.
          (claimable now lease n ≡ true)
          × (claims n.id n ≡ true → any (claims n.id) db.notifications ≡ true))
        (λ n. any (claims n.id) db.notifications ≡ true) found
        (λ n (c, own). own (claimable-claims now lease n c))
        (due-All (λ n. claims n.id n ≡ true → any (claims n.id) db.notifications ≡ true) now lease
          limit db.notifications (own_row db.notifications)) in
    let separate = take-Apart (if limit == 0 then 1 else limit) sorted (
      sort-Apart (filter (claimable now lease) db.notifications)
        (filter-Apart (claimable now lease) db.notifications apart)) in
    (
      rw
          (
            claim_each-map found db.notifications there,
            claim_each-update found db.notifications separate,
          )
          refl,
      due_pages-AreFirst now lease limit db.notifications,
      map-All (λ n. (claimable now lease n ≡ true) × P n) (Claimed P now lease) found
          (λ n d. (n, d.0, d.1, refl)) (due-All P now lease limit db.notifications h),
    )
