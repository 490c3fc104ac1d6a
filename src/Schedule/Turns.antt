-- ===== src/Schedule/Turns.antt =====
-- Where the answer of a rotating layer changes (`userAt` and `boundaries` of internal/schedule/schedule.go).
use kerberon.Base.{
  ℕ, zero, suc, ◌≤◌, ◌<◌, ◌≡◌, refl, ap, sym, ◌∙◌, inl, inr, true, false, Option, none, some, List,
  [], ◌∷◌, String, str_eq, ltb, arith, All, Bool-cases, Option-cases, ◌==◌, any, length, get_elem?,
  get_elem?-some, eq_iff,
}
use kerberon.Core.Time.{Time}
use kerberon.Schedule.Zone.{sub_days}
use kerberon.Schedule.Layers.{
  Layer, next_handoff, handoffs, prev_handoff, look_back, position, restricted_out, user_at,
  layer_boundaries,
}
use kerberon.Schedule.Calendar.{
  IsCalendar, IsLast, walk-IsLast, last_unique, IsLast-kept, handoffs_list, handoffs-complete,
}
use kerberon.Schedule.Rotation.{position-lt}
use kerberon.Schedule.Resolver
use kerberon.Schedule.Steady.{IsSteady, Outside}

abbrev pub answer : Option (Option String) → Option String
answer none = none
answer (some o) = o

abbrev pub listed : Option (List Time) → List Time
listed none = []
listed (some ts) = ts

-- A layer as the resolver asks it. Where Go panics it has nobody and no boundary: whoever asks it looks at
-- Schedule/Panics first.
unfoldable pub resolver_layer : Layer → Resolver.Layer
resolver_layer l = record {
  user_at = λ t. answer (user_at l t);
  boundaries = λ from to. listed (layer_boundaries l from to);
}

-- What a built layer does over a window: the boundaries that it lists lie in the window, the start excluded,
-- and between them it gives one answer, a panic included.
pub record IsSettled (from to : Time) (l : Layer) : Type 0 where
  pub inside : All (λ x. (from < x) × (x ≤ to)) (listed (layer_boundaries l from to))
  pub constant :
      (p q t : Time)
      → from ≤ p
      → q ≤ to
      → All (Outside p q) (listed (layer_boundaries l from to))
      → p ≤ t
      → t < q
      → user_at l t ≡ user_at l p

pub settled-IsSteady :
    (from to : Time) (l : Layer) → IsSettled from to l → IsSteady from to (resolver_layer l)
unfolding resolver_layer
settled-IsSteady from to l s = record {
  inside = s.inside;
  constant = λ p q t lo hi out le lt. ap answer (s.constant p q t lo hi out le lt);
}

-- ─── Whoever is on call is a participant ───

some_participant :
    (ps : List String) (i : ℕ) {u : String}
    → get_elem? ps i ≡ some u
    → any (λ p. str_eq p u) ps ≡ true
some_participant [] i h = absurd (cc h)
some_participant (p ∷ ps) zero {u} h =
    let same : p ≡ u = cc h in ground (arith, (eq_iff p u).1 same)
some_participant (p ∷ ps) (suc i) {u} h = ground (arith, some_participant ps i h)

-- Whoever a layer puts on call is one of its participants.
pub user_at-participant :
    (l : Layer) (t : Time) (u : String)
    → user_at l t ≡ some (some u)
    → any (λ p. str_eq p u) l.participants ≡ true
unfolding user_at
user_at-participant l t u h = elim (Bool-cases (length l.participants == 0)) [
  | inl e ↦ absurd (cc (rw (e, user_at) at h))
  | inr e ↦ elim (Bool-cases (restricted_out l t)) [
    | inl f ↦ absurd (cc (rw (e, f, user_at) at h))
    | inr f ↦ elim (Bool-cases (str_eq l.rotation "")) [
      | inl g ↦
          let found : some (get_elem? l.participants 0) ≡ some (some u) =
            rw (e, f, g, user_at) at h in
          some_participant l.participants 0 (cc found)
      | inr g ↦ elim (Option-cases (prev_handoff l t)) [
        | inl p ↦ absurd (cc (rw (e, f, g, p, user_at) at h))
        | inr (last, p) ↦
            let found : some (get_elem? l.participants (position l last)) ≡ some (some u) =
              rw (e, f, g, p, user_at) at h in
            some_participant l.participants (position l last) (cc found)
      ]
    ]
  ]
]

-- ─── Steady between handoffs ───

module _ (l : Layer) (free : l.restriction ≡ none) (turns : str_eq l.rotation "" ≡ false)
    (cal : IsCalendar (next_handoff l)) where
  -- Looking back far enough finds a handoff that is not after the instant.
  abbrev pub Reaches : Time → Type 0
  Reaches t = (c : Time) × (next_handoff l (sub_days l.location t (look_back l)) ≡ some c) × (c ≤ t)

  -- So the last handoff is found.
  pub prev_handoff-IsLast :
      (t : Time)
      → Reaches t
      → (h : Time) × (prev_handoff l t ≡ some h) × IsLast (next_handoff l) t h
  unfolding prev_handoff
  prev_handoff-IsLast t (c, e, le) =
      let (h, found, isl) =
        walk-IsLast (next_handoff l) cal (suc t) t c (sub_days l.location t (look_back l), e) le
          (omega arith) in
      (h, rw (e, prev_handoff) found, isl)

  turn :
      (t : Time)
      → 0 < length l.participants
      → Reaches t
      → (h : Time) × IsLast (next_handoff l) t h
        × (user_at l t ≡ some (get_elem? l.participants (position l h)))
  unfolding user_at
  turn t staffed r =
      let (h, found, isl) = prev_handoff-IsLast t r in
      let some_staff : (length l.participants == 0) ≡ false = ground arith in
      let open_hours : restricted_out l t ≡ false = rw free refl in
      (h, isl, rw (some_staff, open_hours, turns, found, user_at) refl)

  -- A rotating layer without a restriction always puts one of its participants on call.
  pub someone_on_call :
      (t : Time)
      → 0 < length l.participants
      → Reaches t
      → (u : String) × (user_at l t ≡ some (some u)) × (any (λ p. str_eq p u) l.participants ≡ true)
  someone_on_call t staffed r =
      let (h, isl, e) = turn t staffed r in
      let (u, f) = get_elem?-some l.participants (position l h) (position-lt l h staffed) in
      (u, e ∙ ap some f, some_participant l.participants (position l h) f)

  layer_boundaries-list :
      (from to : Time)
      → from ≤ to
      → (hs : List Time) × (handoffs (next_handoff l) (suc to) to from ≡ some hs)
        × (layer_boundaries l from to ≡ some hs)
        × All (λ x. (from < x) × (x ≤ to)) hs
  unfolding layer_boundaries
  layer_boundaries-list from to le =
      let (hs, found, inside) =
        handoffs_list (next_handoff l) cal (suc to) to from le (omega arith) in
      (hs, found, rw (turns, found, free, layer_boundaries) refl, inside)

  pub turns-IsSettled :
      (from to : Time)
      → from ≤ to
      → 0 < length l.participants
      → ((t : Time) → from ≤ t → t < to → Reaches t)
      → IsSettled from to l
  turns-IsSettled from to le staffed reaches =
      let (hs, found, bounds, inside) = layer_boundaries-list from to le in
      record {
        inside = rw bounds inside;
        constant = λ p q t lo hi out here before.
            let outside : All (Outside p q) hs = rw bounds at out in
            let (d, e, ahead) = cal.total p in
            let late : t < d = elim (Bool-cases (ltb t d)) [
              | inl f ↦ ground arith
              | inr f ↦
                  absurd
                    (elim (handoffs-complete (next_handoff l) cal (Outside p q) (suc to) to from p d
                      hs found outside lo e (ground (arith, hi))) [
                        | inl a ↦ omega (arith, a, ahead)
                        | inr b ↦ ground (arith, b, before)
                      ])
            ] in
            let (h, isl, at_p) = turn p staffed (reaches p lo (omega arith)) in
            let (h', isl', at_t) = turn t staffed (reaches t (omega arith) (omega arith)) in
            let same : h' ≡ h =
              last_unique (next_handoff l) cal t h' h isl'
                (IsLast-kept (next_handoff l) cal p t h d isl e here late) in
            at_t ∙ ap (λ k. some (get_elem? l.participants (position l k))) same ∙ sym at_p;
      }

  -- A rotating layer with participants and without a restriction, which at every instant has a next handoff that
  -- is later and stays the next one until it comes, changes its answer, over a window in which looking back
  -- always reaches a handoff, only at the handoffs that it lists as boundaries, which lie in the window.
  pub turns-IsSteady :
      (from to : Time)
      → from ≤ to
      → 0 < length l.participants
      → ((t : Time) → from ≤ t → t < to → Reaches t)
      → IsSteady from to (resolver_layer l)
  turns-IsSteady from to le staffed reaches =
      settled-IsSteady from to l (turns-IsSettled from to le staffed reaches)
