-- ===== src/Schedule/Spans.antt =====
-- The spans between neighbouring points (`Intervals` of internal/schedule/schedule.go).
use kerberon.Base.{
  ◌≡◌, ap, ◌∙◌, ◌≤◌, ◌<◌, inl, inr, String, str_eq, eq_iff, Bool, false, Option, none, some, List,
  [], ◌∷◌, ltb, leb, leb→le, arith, any, All, Bool-cases, ◌&&◌, ◌||◌,
}
use kerberon.Base.Sort.{IsSorted}
use kerberon.Core.Time.{Time}
use kerberon.Core.Records.{Interval, contains}
use kerberon.Schedule.Resolver.{extend, span, spans}
use kerberon.Schedule.Gaps.{Newest, span-Newest, later-All}

-- The answer is this user.
abbrev pub holds : String → Option String → Bool
holds u none = false
holds u (some v) = str_eq v u

-- A span of the user covers the instant.
abbrev pub held : String → Time → List Interval → Bool
held u t ivs = any (λ (iv : Interval). contains iv t && str_eq iv.user_id u) ivs

extend-held :
    (u : String) (t start end : Time) (user : String) (out : List Interval)
    → start ≤ end
    → All (λ (iv : Interval). iv.start ≤ start) out
    → held u t (extend start end user out)
      ≡ (held u t out || ((leb start t && ltb t end) && str_eq user u))
extend-held u t start end user [] le h = ground arith
extend-held u t start end user (iv ∷ out) le h = elim (Bool-cases (str_eq iv.user_id user)) [
  | inl e ↦ rw ((eq_iff iv.user_id user).0 e) (ground (arith, h.0))
  | inr e ↦ rw e (ground arith)
]

span-held :
    (u : String) (t : Time) (o : Option String) (start end : Time) (out : List Interval)
    → start ≤ end
    → All (λ (iv : Interval). iv.start ≤ start) out
    → held u t (span o start end out) ≡ (held u t out || ((leb start t && ltb t end) && holds u o))
span-held u t none start end out le h = ground arith
span-held u t (some user) start end out le h = extend-held u t start end user out le h

abbrev pub last : Time → List Time → Time
last start [] = start
last start (end ∷ rest) = last end rest

last-le : (start : Time) (rest : List Time) → IsSorted leb (start ∷ rest) → start ≤ last start rest
last-le start [] s = omega arith
last-le start (end ∷ rest) s = omega (arith, leb→le start end s.0.0, last-le end rest s.1)

-- A span up to `end` and what follows it up to `stop`, together.
joined :
    (start end stop t : Time) (old here there : Bool)
    → start ≤ end
    → end ≤ stop
    → (start ≤ t → t < end → there ≡ here)
    → ((old || ((leb start t && ltb t end) && here)) || ((leb end t && ltb t stop) && there))
      ≡ (old || ((leb start t && ltb t stop) && there))
joined start end stop t old here there le after same =
    elim (Bool-cases (leb start t && ltb t end)) [
      | inl e ↦
          let equal : there ≡ here = same (ground arith) (ground arith) in ground (arith, equal)
      | inr e ↦ ground arith
    ]

module _ (who : Time → Option String) where
  -- Between neighbouring points the answer is the one at the first of them.
  abbrev pub Steady : Time → List Time → Type 0
  Steady start [] = Unit
  Steady start (end ∷ rest) =
      ((t : Time) → start ≤ t → t < end → who t ≡ who start) × Steady end rest

  pub spans-held :
      (u : String) (t : Time) (rest : List Time) (start : Time) (out : List Interval)
      → IsSorted leb (start ∷ rest)
      → Newest start out
      → Steady start rest
      → held u t (spans who start rest out)
        ≡ (held u t out || ((leb start t && ltb t (last start rest)) && holds u (who t)))
  unfolding spans
  spans-held u t [] start out s n st = ground arith
  spans-held u t (end ∷ rest) start out s n st =
      let le : start ≤ end = leb→le start end s.0.0 in
      let after : end ≤ last end rest = last-le end rest s.1 in
      elim (Bool-cases (ltb start end)) [
        | inl e ↦
            let m = span-Newest (who start) start end out n in
            let later =
              spans-held u t rest end (span (who start) start end out) s.1
                (m.0, later-All start end _ le m.1) st.1 in
            rw e (
              later
              ∙ ap (λ b. b || ((leb end t && ltb t (last end rest)) && holds u (who t)))
                  (span-held u t (who start) start end out le n.1)
              ∙ joined start end (last end rest) t (held u t out) (holds u (who start))
                  (holds u (who t)) le after (λ a b. ap (holds u) (st.0 t a b)))
        | inr e ↦
            let later =
              spans-held u t rest end out s.1 (n.0, later-All start end out le n.1) st.1 in
            rw e (later ∙ ground (arith, le, e))
      ]
