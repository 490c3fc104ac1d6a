-- ===== src/Schedule/NextHandoff.antt =====
-- Whether there is a next handoff (`NextDaily` and `NextWeekly` of internal/schedule/wallclock.go).
use kerberon.Base.{
  ℕ, zero, suc, ◌+◌, ◌-◌, ◌*◌, ◌/◌, ◌≤◌, ◌<◌, ◌≡◌, refl, ◌==◌, ==_iff, Bool, true, false, ◌&&◌,
  some, List, [], ◌∷◌, ltb, arith, Bool-cases, Option-cases, inl, inr,
}
use kerberon.Core.Time.{Time, Duration, second, minute}
use kerberon.Schedule.Zone.{Zone, hour, day, lookup, offset_at, date, day_of, add_days}
use kerberon.Schedule.WallClock.{
  WallClock, asked, matches, bisect, halvings, transition_on_date, occurrences, resolve,
  resolve_instant, next_from, next_daily,
}

-- ─── One day is enough among those tried ───

clash :
    (i j : ℕ) (wanted : ℕ → Bool) (z : Zone) (after : Time) (h m : ℕ)
    → i ≡ j
    → wanted (day_of z (add_days z after j)) ≡ true
    → after
      < resolve_instant (record { date = day_of z (add_days z after j); hour = h; minute = m }) z
    → (wanted (day_of z (add_days z after i))
        && ltb after (
            resolve_instant
              (record { date = day_of z (add_days z after i); hour = h; minute = m })
              z))
      ≡ false
    → ⊥
clash i j wanted z after h m same w late = rw same (λ e. ground arith)

next_from-finds :
    (wanted : ℕ → Bool) (z : Zone) (after : Time) (h m i left j : ℕ)
    → i ≤ j
    → j < i + left
    → wanted (day_of z (add_days z after j)) ≡ true
    → after
      < resolve_instant (record { date = day_of z (add_days z after j); hour = h; minute = m }) z
    → (c : Time) × (next_from wanted z after h m i left ≡ some c) × (after < c)
unfolding next_from
next_from-finds wanted z after h m i zero j lo hi w late = absurd (omega arith)
next_from-finds wanted z after h m i (suc left) j lo hi w late =
    let d = day_of z (add_days z after i) in
    let candidate = resolve_instant (record { date = d; hour = h; minute = m }) z in
    elim (Bool-cases (wanted d && ltb after candidate)) [
      | inl e ↦ (candidate, rw e refl, ground arith)
      | inr e ↦ elim (Bool-cases (i == j)) [
        | inl same ↦ absurd (clash i j wanted z after h m ((==_iff i j).0 same) w late e)
        | inr other ↦
            rw e (
              next_from-finds wanted z after h m (suc i) left j (ground arith) (omega arith) w late)
      ]
    ]

module _ (z : Zone) (b spread : ℕ)
    (offsets : (t : Time) → (b ≤ offset_at z t) × (offset_at z t ≤ b + spread)) where
  date_floor : (r : ℕ) → r ≤ date z r + b + spread
  unfolding date
  date_floor r =
      let era = lookup z (r - day) in ground (arith, offsets (r - day), offsets (r - era.offset))

  bisect_floor : (new fuel : ℕ) (lo hi : Time) → lo ≤ hi → lo ≤ bisect z new fuel lo hi
  unfolding bisect
  bisect_floor new zero lo hi h = h
  bisect_floor new (suc fuel) lo hi h = elim (Bool-cases (ltb second (hi - lo))) [
    | inl e ↦ elim (Bool-cases (offset_at z (lo + (hi - lo) / 2) == new)) [
      | inl f ↦ rw (e, f) (bisect_floor new fuel lo (lo + (hi - lo) / 2) (omega arith))
      | inr f ↦
          let rest = bisect_floor new fuel (lo + (hi - lo) / 2) hi (omega arith) in
          rw (e, f) (omega (arith, rest))
    ]
    | inr e ↦ rw e h
  ]

  transition_floor :
      (w : WallClock) (end : Time)
      → transition_on_date z w ≡ some end
      → w.date * day ≤ end + b + spread + second
  unfolding transition_on_date
  transition_floor w end h =
      let noon = date z (w.date * day + 12 * hour) in
      let found =
        bisect z (offset_at z (noon + 14 * hour)) halvings (noon - 12 * hour) (noon + 14 * hour) in
      ground (
        arith,
        date_floor (w.date * day + 12 * hour),
        bisect_floor (offset_at z (noon + 14 * hour)) halvings (noon - 12 * hour)
            (noon + 14 * hour),
      )

  matches_floor : (t : Time) (w : WallClock) → matches z t w ≡ true → w.date * day ≤ t + b + spread
  matches_floor t w h = ground (arith, offsets t)

  occurrences_floor :
      (w : WallClock) (t : Time) (shifts : List Duration)
      → w.date * day ≤ t + b + spread
      → w.date * day ≤ (occurrences z w t shifts).instant + b + spread
  unfolding occurrences
  occurrences_floor w t [] h = h
  occurrences_floor w t (shift ∷ shifts) h =
      let rest = occurrences_floor w t shifts h in
      elim (Bool-cases (matches z (t - shift) w)) [
        | inl e ↦ rw e (matches_floor (t - shift) w e)
        | inr e ↦ elim (Bool-cases (matches z (t + shift) w)) [
          | inl f ↦ rw (e, f) h
          | inr f ↦ rw (e, f) rest
        ]
      ]

  resolve_floor : (w : WallClock) → w.date * day ≤ resolve_instant w z + b + spread + second
  unfolding resolve
  resolve_floor w =
      let t = date z (asked w) in
      elim (Bool-cases (matches z t w)) [
        | inl e ↦
            let least = occurrences_floor w t (hour ∷ 30 * minute ∷ []) (matches_floor t w e) in
            rw (e, resolve_instant) (omega (arith, least))
        | inr e ↦ elim (Option-cases (transition_on_date z w)) [
          | inl f ↦ rw (e, f, resolve_instant) (omega (arith, date_floor (asked w)))
          | inr (end, f) ↦ rw (e, f, resolve_instant) (transition_floor w end f)
        ]
      ]

  module _ (narrow : spread + second ≤ day) (after : Time) where
    day_floor : day_of z after * day ≤ after + b + spread
    day_floor = omega (arith, offsets after)

    late :
        (i h m : ℕ)
        → 2 ≤ i
        → day_of z (add_days z after i) ≡ day_of z after + i
        → after
          < resolve_instant
              (record { date = day_of z (add_days z after i); hour = h; minute = m })
              z
    late i h m two kept =
        let least =
          resolve_floor (record { date = day_of z (add_days z after i); hour = h; minute = m }) in
        let soon : after + b < (day_of z after + 1) * day = omega (arith, offsets after) in
        omega (arith, least, soon, kept)

    -- In a zone whose offsets are less than a day apart, and where adding up to two days to the date of the
    -- instant gives that date, there is a next daily handoff and it is later than the instant.
    pub next_daily_total :
        (h m : ℕ)
        → ((i : ℕ) → i ≤ 2 → day_of z (add_days z after i) ≡ day_of z after + i)
        → (c : Time) × (next_daily after h m z ≡ some c) × (after < c)
    unfolding next_daily
    next_daily_total h m kept =
        next_from-finds (λ d. true) z after h m 0 3 2 (omega arith) (omega arith) refl
          (late 2 h m (omega arith) (kept 2 (omega arith)))
