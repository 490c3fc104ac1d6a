-- ===== src/Schedule/Gaps.antt =====
-- The gaps of a schedule beside its intervals (`Gaps` of internal/schedule/schedule.go).
use kerberon.Base.{
  ℕ, ◌≡◌, refl, ◌∙◌, ◌≤◌, ◌<◌, inl, inr, String, str_eq, Bool, true, false, not, Option, none, some,
  List, [], ◌∷◌, ◌++◌, if◌then◌else◌, ltb, leb, leb→le, arith, any, All, All-append, Bool-cases,
  ◌&&◌, ◌==◌,
}
use mathlib.Core.List.{reverse, reverse-cons}
use kerberon.Base.Sort.{IsSorted, sort-IsSorted}
use kerberon.Core.Time.{Time}
use kerberon.Core.Records.{Interval, contains}
use kerberon.Schedule.Resolver.{
  Resolver, at, points, extend, span, from_first, spans, covered, intervals, gaps_from, gaps,
}

abbrev starts_le : Interval → Interval → Bool
starts_le a b = leb a.start b.start

not_yet-covers :
    (t : Time) (iv : Interval) (ivs : List Interval)
    → All (λ j. starts_le iv j ≡ true) ivs
    → t < iv.start
    → any (λ (j : Interval). contains j t) ivs ≡ false
not_yet-covers t iv [] s h = refl
not_yet-covers t iv (j ∷ ivs) s h =
    let later : iv.start ≤ j.start = leb→le _ _ s.0 in ground (arith, not_yet-covers t iv ivs s.1 h)

-- Up to the end of the window, a gap covers an instant from the cursor on that no span covers.
gaps_from-covers :
    (cursor to t : Time) (ivs : List Interval)
    → IsSorted starts_le ivs
    → t < to
    → any (λ (g : Interval). contains g t) (gaps_from cursor to ivs)
      ≡ (leb cursor t && not (any (λ (iv : Interval). contains iv t) ivs))
unfolding gaps_from
gaps_from-covers cursor to t [] s h = ground arith
gaps_from-covers cursor to t (iv ∷ ivs) s h =
    let rest = gaps_from-covers (if ltb cursor iv.end then iv.end else cursor) to t ivs s.1 h in
    elim (Bool-cases (ltb t iv.start)) [
      | inl e ↦ ground (arith, rest, not_yet-covers t iv ivs s.0 (ground arith))
      | inr e ↦ ground (arith, rest)
    ]

-- ─── The intervals come in order ───

-- Newest first, none starting after the cursor.
abbrev pub Newest : Time → List Interval → Type 0
Newest cursor out =
    IsSorted (λ a b. starts_le b a) out × All (λ (iv : Interval). iv.start ≤ cursor) out

pub later-All :
    (c d : Time) (out : List Interval)
    → c ≤ d
    → All (λ (iv : Interval). iv.start ≤ c) out
    → All (λ (iv : Interval). iv.start ≤ d) out
later-All c d [] h a = tt
later-All c d (iv ∷ out) h a = (omega (arith, a.0), later-All c d out h a.1)

before-All :
    (b : Interval) (c : Time) (out : List Interval)
    → b.start ≡ c
    → All (λ (iv : Interval). iv.start ≤ c) out
    → All (λ iv. starts_le iv b ≡ true) out
before-All b c [] e a = tt
before-All b c (iv ∷ out) e a = (ground (arith, e, a.0), before-All b c out e a.1)

extend-Newest :
    (start end : Time) (user : String) (out : List Interval)
    → Newest start out
    → Newest start (extend start end user out)
extend-Newest start end user [] n = ((tt, tt), (omega arith, tt))
extend-Newest start end user (iv ∷ out) n =
    elim (Bool-cases (str_eq iv.user_id user && iv.end == start)) [
      | inl e ↦ rw e n
      | inr e ↦ rw e (
        (
          before-All (record { start = start; end = end; user_id = user }) start (iv ∷ out) refl
              n.1,
          n.0,
        ),
        (omega arith, n.1),
      )
    ]

pub span-Newest :
    (o : Option String) (start end : Time) (out : List Interval)
    → Newest start out
    → Newest start (span o start end out)
span-Newest none start end out n = n
span-Newest (some user) start end out n = extend-Newest start end user out n

module _ (who : Time → Option String) where
  spans-Newest :
      (rest : List Time) (start : Time) (out : List Interval)
      → All (λ p. leb start p ≡ true) rest
      → IsSorted leb rest
      → Newest start out
      → IsSorted (λ a b. starts_le b a) (spans who start rest out)
  unfolding spans
  spans-Newest [] start out a s n = n.0
  spans-Newest (end ∷ rest) start out a s n =
      spans-Newest rest end _ s.0 s.1 (elim (Bool-cases (ltb start end)) [
        | inl e ↦ rw e (
            let m = span-Newest (who start) start end out n in
            (m.0, later-All start end _ (leb→le _ _ a.0) m.1))
        | inr e ↦ rw e (n.0, later-All start end out (leb→le _ _ a.0) n.1)
      ])

-- ─── Turned round ───

snoc-IsSorted :
    (ivs : List Interval) (a : Interval)
    → IsSorted starts_le ivs
    → All (λ b. starts_le b a ≡ true) ivs
    → IsSorted starts_le (ivs ++ a ∷ [])
snoc-IsSorted [] a s h = (tt, tt)
snoc-IsSorted (b ∷ ivs) a s h =
    (All-append (λ c. starts_le b c ≡ true) ivs (a ∷ []) s.0 (h.0, tt), snoc-IsSorted ivs a s.1 h.1)

reverse-All : (P : Interval → Type 0) (ivs : List Interval) → All P ivs → All P (reverse ivs)
reverse-All P [] h = tt
reverse-All P (a ∷ ivs) h =
    rw (reverse-cons a ivs) (All-append P (reverse ivs) (a ∷ []) (reverse-All P ivs h.1) (h.0, tt))

reverse-IsSorted :
    (ivs : List Interval) → IsSorted (λ a b. starts_le b a) ivs → IsSorted starts_le (reverse ivs)
reverse-IsSorted [] s = tt
reverse-IsSorted (a ∷ ivs) s = rw (reverse-cons a ivs) (
    snoc-IsSorted (reverse ivs) a (reverse-IsSorted ivs s.1)
      (reverse-All (λ b. starts_le b a ≡ true) ivs s.0))

pub leb-total : (a b : ℕ) → leb a b ≡ false → leb b a ≡ true
leb-total a b h = ground arith

pub leb_trans : (a b c : ℕ) → leb a b ≡ true → leb b c ≡ true → leb a c ≡ true
leb_trans a b c h k = ground arith

first-IsSorted :
    (who : Time → Option String) (ps : List Time)
    → IsSorted leb ps
    → IsSorted (λ a b. starts_le b a) (from_first (λ p rest. spans who p rest []) ps)
first-IsSorted who [] s = tt
first-IsSorted who (p ∷ rest) s = spans-Newest who rest p [] s.0 s.1 (tt, tt)

covered-IsSorted :
    (r : Resolver) (from to : Time) → IsSorted (λ a b. starts_le b a) (covered r from to)
unfolding covered points
covered-IsSorted r from to = elim (Bool-cases (ltb from to)) [
  | inl e ↦
      rw (e, covered)
        (first-IsSorted (at r) (points r from to) (sort-IsSorted leb leb-total leb_trans _))
  | inr e ↦ rw (e, covered) tt
]

intervals-IsSorted : (r : Resolver) (from to : Time) → IsSorted starts_le (intervals r from to)
unfolding intervals
intervals-IsSorted r from to = reverse-IsSorted (covered r from to) (covered-IsSorted r from to)

-- An instant of the window is in a gap exactly when it is in no interval of the schedule.
pub gaps_complement :
    (r : Resolver) (from to t : Time)
    → from ≤ t
    → t < to
    → any (λ (g : Interval). contains g t) (gaps r from to)
      ≡ not (any (λ (iv : Interval). contains iv t) (intervals r from to))
unfolding gaps
gaps_complement r from to t le lt =
    gaps_from-covers from to t (intervals r from to) (intervals-IsSorted r from to) lt
    ∙ ground arith
