-- ===== src/Schedule/Calendar.antt =====
-- Rotations over a calendar of handoffs (`prevHandoff`, `userAt` and `boundaries` of
-- internal/schedule/schedule.go).
use mathlib.Core.Path.{subst⁻¹}
use kerberon.Base.{
  ℕ, zero, suc, ◌+◌, ◌≤◌, ◌<◌, ◌≡◌, refl, sym, inl, inr, false, Option, some, List, [], ◌∷◌, ltb,
  arith, All, All-map, Bool-cases, Option-cases, subst,
}
use kerberon.Core.Time.{Time}
use kerberon.Schedule.Layers.{walk, handoffs}

-- There is a handoff after every instant, and until it comes it stays the next one.
pub record IsCalendar (next : Time → Option Time) : Type 0 where
  pub total : (t : Time) → (c : Time) × (next t ≡ some c) × (t < c)
  pub kept : (s t c : Time) → next s ≡ some c → s ≤ t → t < c → next t ≡ some c

module _ (next : Time → Option Time) where
  -- The last handoff at or before an instant: it is one, and the next one is later.
  pub record IsLast (t h : Time) : Type 0 where
    pub handoff : (u : Time) × (next u ≡ some h)
    pub reached : h ≤ t
    pub ahead : (c : Time) → next h ≡ some c → t < c

module _ (next : Time → Option Time) (cal : IsCalendar next) where
  later : (s c : Time) → next s ≡ some c → s < c
  later s c h =
      let (d, e, lt) = cal.total s in let same : d ≡ c = cc (e, h) in omega (arith, lt, same)

  pub walk-IsLast :
      (fuel : ℕ) (t cur : Time)
      → (u : Time) × (next u ≡ some cur)
      → cur ≤ t
      → t < cur + fuel
      → (h : Time) × (walk next fuel t cur ≡ some h) × IsLast next t h
  unfolding walk
  walk-IsLast zero t cur at le enough = absurd (omega arith)
  walk-IsLast (suc fuel) t cur at le enough =
      let (n, e, lt) = cal.total cur in
      elim (Bool-cases (ltb t n)) [
        | inl past ↦ (
          cur,
          rw (e, walk, past) refl,
          record {
            handoff = at;
            reached = le;
            ahead = λ c h. let same : n ≡ c = cc (e, h) in ground (arith, same, past);
          },
        )
        | inr more ↦
            let (h, found, isl) = walk-IsLast fuel t n (cur, e) (ground arith) (omega arith) in
            (h, rw (e, walk, more) found, isl)
      ]

  no_later : (t a b : Time) → IsLast next t a → IsLast next t b → a < b → ⊥
  no_later t a b la lb lt =
      let (v, ev) = lb.handoff in
      let (c, ec, more) = cal.total a in
      let past = la.ahead c ec in
      let early = later v b ev in
      let clash : b ≡ c → ⊥ = λ same. omega (arith, same, past, lb.reached) in
      elim (Bool-cases (ltb v a)) [
        | inl e ↦ let there = cal.kept v a b ev (ground arith) lt in clash (cc (there, ec))
        | inr e ↦
            let there = cal.kept a v c ec (ground arith) (omega (arith, early, past, lb.reached)) in
            clash (cc (there, ev))
      ]

  -- There is only one.
  pub last_unique : (t a b : Time) → IsLast next t a → IsLast next t b → a ≡ b
  last_unique t a b la lb = elim (Bool-cases (ltb a b)) [
    | inl e ↦ absurd (no_later t a b la lb (ground arith))
    | inr e ↦ elim (Bool-cases (ltb b a)) [
      | inl f ↦ absurd (no_later t b a lb la (ground arith))
      | inr f ↦ ground arith
    ]
  ]

  -- Until the next handoff the last one stays the same.
  pub IsLast-kept :
      (s t h d : Time) → IsLast next s h → next s ≡ some d → s ≤ t → t < d → IsLast next t h
  IsLast-kept s t h d l e le lt = record {
    handoff = l.handoff;
    reached = omega (arith, l.reached);
    ahead = λ c f.
        let same : next s ≡ some c = cal.kept h s c f l.reached (l.ahead c f) in
        let equal : d ≡ c = cc (e, same) in omega (arith, equal);
  }

  pub handoffs_list :
      (fuel : ℕ) (to cur : Time)
      → cur ≤ to
      → to < cur + fuel
      → (hs : List Time) × (handoffs next fuel to cur ≡ some hs)
        × All (λ x. (cur < x) × (x ≤ to)) hs
  unfolding handoffs
  handoffs_list zero to cur le enough = absurd (omega arith)
  handoffs_list (suc fuel) to cur le enough =
      let (n, e, lt) = cal.total cur in
      elim (Bool-cases (ltb to n)) [
        | inl past ↦ ([], rw (e, handoffs, past) refl, tt)
        | inr more ↦
            let in_reach : n ≤ to = ground arith in
            let (hs, found, inside) = handoffs_list fuel to n in_reach (omega arith) in
            (
              n ∷ hs,
              rw (e, handoffs, more, found) refl,
              (
                (lt, in_reach),
                All-map (λ x. (n < x) × (x ≤ to)) (λ x. (cur < x) × (x ≤ to)) hs
                    (λ x i. (omega (arith, i.0, lt), i.1)) inside,
              ),
            )
      ]

  -- Every next handoff up to the end is among those listed.
  pub handoffs-complete :
      (P : Time → Type 0) (fuel : ℕ) (to cur p d : Time) (hs : List Time)
      → handoffs next fuel to cur ≡ some hs
      → All P hs
      → cur ≤ p
      → next p ≡ some d
      → d ≤ to
      → P d
  unfolding handoffs
  handoffs-complete P zero to cur p d hs e all le h hi = absurd (cc e)
  handoffs-complete P (suc fuel) to cur p d hs e all le h hi =
      let (n, en, lt) = cal.total cur in
      let soon = later p d h in
      elim (Bool-cases (ltb p n)) [
        | inl before ↦
            let there = cal.kept cur p n en le (ground arith) in
            let same : d ≡ n = cc (there, h) in
            let more : ltb to n ≡ false = ground (arith, same, hi) in
            elim (Option-cases (handoffs next fuel to n)) [
              | inl stop ↦ absurd (cc (rw (en, handoffs, more, stop) at e))
              | inr (rest, found) ↦
                  let listed : some (n ∷ rest) ≡ some hs = rw (en, handoffs, more, found) at e in
                  let list : n ∷ rest ≡ hs = cc listed in
                  subst P (sym same) (subst⁻¹ (All P) list all).0
            ]
        | inr after ↦
            let reach : n ≤ p = ground arith in
            let more : ltb to n ≡ false = ground (arith, hi, soon, reach) in
            elim (Option-cases (handoffs next fuel to n)) [
              | inl stop ↦ absurd (cc (rw (en, handoffs, more, stop) at e))
              | inr (rest, found) ↦
                  let listed : some (n ∷ rest) ≡ some hs = rw (en, handoffs, more, found) at e in
                  let list : n ∷ rest ≡ hs = cc listed in
                  handoffs-complete P fuel to n p d rest found (subst⁻¹ (All P) list all).1 reach h
                    hi
            ]
      ]
