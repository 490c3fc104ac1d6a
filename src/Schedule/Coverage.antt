-- ===== src/Schedule/Coverage.antt =====
-- The coverage report of internal/schedule/coverage.go, which `kerberon validate` prints: the holes of every
-- schedule that the configuration describes, over a window and without overrides.
use kerberon.Base.{
  ◌+◌, ◌≤◌, ◌<◌, ◌*◌, ◌==◌, ◌≡◌, refl, ap, sym, ◌∙◌, inl, inr, true, Option, none, some, List, [],
  ◌∷◌, ◌++◌, map, any, All, if◌then◌else◌, Bool, false, String, str_eq, eq_iff, Bool-cases,
  Option-cases, arith,
}
use kerberon.Base.Sort.{sort, sort-any}
use kerberon.Core.Time.{Time, Duration}
use kerberon.Core.Records.{Interval, contains}
use kerberon.Alert.{text_le}
use kerberon.Config.Model.{Config}
use kerberon.Schedule.Zone.{Zone, day}
use kerberon.Schedule.Layers.{Layer}
use kerberon.Schedule.Turns.{resolver_layer, IsSettled, settled-IsSteady}
use kerberon.Schedule.Panics.{resolver_schedule, on_call, intervals_panic}
use kerberon.Schedule.Quiet.{quiet_everywhere}
use kerberon.Schedule.Build as Build
use kerberon.Schedule.Build.{
  Outcome, done, refused, panics, ◌>>=◌, from_config, schedule_at, has_name,
}
use kerberon.Schedule.Resolver.{new_resolver, gaps, intervals, at}
use kerberon.Schedule.Steady.{IsSteady}
use kerberon.Schedule.Spans.{held, holds}
use kerberon.Schedule.Gaps.{gaps_complement}
use kerberon.Schedule.Refine.{intervals_refine_at}

pub record Gap : Type 0 where
  pub schedule : String
  pub interval : Interval

abbrev pub coverage_window : Duration
coverage_window = 400 * day

-- The keys of the map of schedules.
unfoldable pub schedule_names : List Build.Schedule → List String
schedule_names [] = []
schedule_names (s ∷ ss) =
    let rest = schedule_names ss in if any (str_eq s.name) rest then rest else s.name ∷ rest

abbrev named_gap : String → Interval → Gap
named_gap name iv = record { schedule = name; interval = iv }

module _ (from to : Time) where
  unfoldable pub schedule_gaps : String → Option Build.Schedule → List Gap
  unfolding resolver_schedule
  schedule_gaps name none = []
  schedule_gaps name (some s) =
      map (named_gap name) (gaps (new_resolver (resolver_schedule s) []) from to)

  unfoldable pub all_gaps : List Build.Schedule → List String → List Gap
  unfolding schedule_gaps
  all_gaps ss [] = []
  all_gaps ss (name ∷ names) = schedule_gaps name (schedule_at ss name) ++ all_gaps ss names

abbrev pub window_end : Time → Duration → Time
window_end from window = from + (if window == 0 then coverage_window else window)

abbrev pub schedule_panics : Time → Time → Option Build.Schedule → Bool
schedule_panics from to none = false
schedule_panics from to (some s) = intervals_panic s from to

-- `CheckCoverage`: a window of no length stands for 400 days.
unfoldable pub check_coverage :
    (String → Option Zone) → Config → Time → Duration → Outcome (List Gap)
unfolding from_config all_gaps intervals_panic
check_coverage load_location c from window = from_config load_location c >>= λ ss.
    let to = window_end from window in
    let names = sort text_le (schedule_names ss) in
    if any (λ name. schedule_panics from to (schedule_at ss name)) names
    then panics
    else done (all_gaps from to ss names)

-- ─── What a clean report means ───

schedule_at-named :
    (ss : List Build.Schedule) (name : String) (s : Build.Schedule)
    → schedule_at ss name ≡ some s
    → any (str_eq name) (schedule_names ss) ≡ true
unfolding schedule_at schedule_names
schedule_at-named [] name s h = absurd (cc h)
schedule_at-named (x ∷ ss) name s h = elim (Option-cases (schedule_at ss name)) [
  | inr (y, e) ↦ ground (arith, schedule_at-named ss name y e)
  | inl e ↦ elim (Bool-cases (str_eq x.name name)) [
    | inl f ↦
        let same : x.name ≡ name = (eq_iff x.name name).0 f in
        ground (arith, same, (eq_iff name name).1 refl)
    | inr f ↦ absurd (cc (rw (e, f) at h))
  ]
]

map-nil : (name : String) (ivs : List Interval) → map (named_gap name) ivs ≡ [] → ivs ≡ []
map-nil name [] h = refl
map-nil name (iv ∷ ivs) h = absurd (cc h)

append-nil : (xs ys : List Gap) → xs ++ ys ≡ [] → (xs ≡ []) × (ys ≡ [])
append-nil [] ys h = (refl, h)
append-nil (x ∷ xs) ys h = absurd (cc h)

module _ (from to : Time) where
  all_gaps-nil :
      (ss : List Build.Schedule) (names : List String) (name : String)
      → any (str_eq name) names ≡ true
      → all_gaps from to ss names ≡ []
      → schedule_gaps from to name (schedule_at ss name) ≡ []
  unfolding all_gaps
  all_gaps-nil ss [] name h e = absurd (cc h)
  all_gaps-nil ss (n ∷ names) name h e =
      let (first, rest) =
        append-nil (schedule_gaps from to n (schedule_at ss n)) (all_gaps from to ss names) e in
      elim (Bool-cases (str_eq name n)) [
        | inl f ↦ ap (λ m. schedule_gaps from to m (schedule_at ss m)) ((eq_iff name n).0 f) ∙ first
        | inr f ↦ all_gaps-nil ss names name (rw f at h) rest
      ]

  held_by :
      (ivs : List Interval) (t : Time)
      → any (λ (iv : Interval). contains iv t) ivs ≡ true
      → (u : String) × (held u t ivs ≡ true)
  held_by [] t h = absurd (cc h)
  held_by (iv ∷ ivs) t h = elim (Bool-cases (contains iv t)) [
    | inl e ↦ (iv.user_id, ground (arith, (eq_iff iv.user_id iv.user_id).1 refl))
    | inr e ↦ let (u, f) = held_by ivs t (rw e at h) in (u, ground arith)
  ]

holds_someone : (u : String) (o : Option String) → holds u o ≡ true → o ≡ some u
holds_someone u none h = absurd (cc h)
holds_someone u (some v) h = ap some ((eq_iff v u).0 h)

done-injective : {A : Type 0} {a b : A} → done a ≡ done b → a ≡ b
done-injective h = cc h

-- Where the report is clean, it did not panic either.
report-clean :
    (ss : List Build.Schedule) (from to : Time) (names : List String)
    → (if any (λ name. schedule_panics from to (schedule_at ss name)) names
        then panics
        else done (all_gaps from to ss names))
      ≡ done []
    → (any (λ name. schedule_panics from to (schedule_at ss name)) names ≡ false)
      × (all_gaps from to ss names ≡ [])
report-clean ss from to names h =
    elim (Bool-cases (any (λ name. schedule_panics from to (schedule_at ss name)) names)) [
      | inl e ↦ absurd (cc (rw e at h))
      | inr e ↦ (e, done-injective (rw e at h))
    ]

none_panics :
    (ss : List Build.Schedule) (from to : Time) (names : List String) (name : String)
    → any (str_eq name) names ≡ true
    → any (λ name. schedule_panics from to (schedule_at ss name)) names ≡ false
    → schedule_panics from to (schedule_at ss name) ≡ false
none_panics ss from to [] name h e = absurd (cc h)
none_panics ss from to (n ∷ names) name h e = elim (Bool-cases (str_eq name n)) [
  | inl f ↦
      let same : name ≡ n = (eq_iff name n).0 f in
      let here : schedule_panics from to (schedule_at ss n) ≡ false = ground arith in
      ap (λ m. schedule_panics from to (schedule_at ss m)) same ∙ here
  | inr f ↦ none_panics ss from to names name (rw f at h) (ground arith)
]

all-IsSteady :
    (from to : Time) (ls : List Layer)
    → All (IsSettled from to) ls
    → All (IsSteady from to) (map resolver_layer ls)
all-IsSteady from to [] h = tt
all-IsSteady from to (l ∷ ls) h = (settled-IsSteady from to l h.0, all-IsSteady from to ls h.1)

-- Where the report of a configuration is clean, somebody is on call for each of its schedules at every
-- instant of the window, and asking for them does not panic: without an override, and for a schedule whose
-- layers list no boundary outside the window and, between the boundaries that they list, give one answer.
pub clean_report_covers :
    (load_location : String → Option Zone) (c : Config) (from : Time) (window : Duration)
    (ss : List Build.Schedule)
    → from_config load_location c ≡ done ss
    → check_coverage load_location c from window ≡ done []
    → (name : String) (s : Build.Schedule) → schedule_at ss name ≡ some s
    → All (IsSettled from (window_end from window)) s.layers
    → (t : Time) → from ≤ t
    → t < window_end from window
    → (u : String) × (on_call s [] t ≡ done (some u))
unfolding check_coverage resolver_schedule new_resolver schedule_gaps on_call
clean_report_covers load_location c from window ss built clean name s found settled t lo hi =
    let to = window_end from window in
    let r = new_resolver (resolver_schedule s) [] in
    let names = sort text_le (schedule_names ss) in
    let (quiet, none_at_all) = report-clean ss from to names (rw built at clean) in
    let named : any (str_eq name) names ≡ true =
      sort-any text_le (str_eq name) (schedule_names ss) ∙ schedule_at-named ss name s found in
    let no_gap : gaps r from to ≡ [] = map-nil name (gaps r from to) (
      sym (ap (schedule_gaps from to name) found)
      ∙ all_gaps-nil from to ss names name named none_at_all) in
    let inside : any (λ (iv : Interval). contains iv t) (intervals r from to) ≡ true =
      ground (arith, gaps_complement r from to t lo hi, no_gap) in
    let (u, by) = held_by from to (intervals r from to) t inside in
    let steady = all-IsSteady from to s.layers settled in
    let answer =
      holds_someone u (at r t) (sym (intervals_refine_at r from to steady t u lo hi) ∙ by) in
    let calm =
      quiet_everywhere from to s t settled
        (sym (ap (schedule_panics from to) found) ∙ none_panics ss from to names name named quiet)
        lo hi in
    (u, rw (calm, on_call) (ap (λ o. done o) answer))
