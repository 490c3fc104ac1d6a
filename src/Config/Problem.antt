-- ===== src/Config/Problem.antt =====
-- What the checks of internal/config/validate.go report. A problem has the place in the configuration, the
-- last part of its dotted path, and what its message says. Lines are left out.
use kerberon.Base.{
  ℕ, suc, String, str_eq, Bool, true, false, Option, none, some, List, [], ◌∷◌, ◌++◌, if◌then◌else◌,
}
use kerberon.Core.Enums.{TargetKind}

pub data Place : Type 0 where
  server users routes notifications : Place
  user : ℕ → Place
  team : ℕ → Place
  member : ℕ → ℕ → Place
  schedule : ℕ → Place
  layer : ℕ → ℕ → Place
  participant : ℕ → ℕ → ℕ → Place
  policy : ℕ → Place
  step : ℕ → ℕ → Place
  route : ℕ → Place
  heartbeat : ℕ → Place

pub data Message : Type 0 where
  required none_given not_url no_host not_positive negative same_time too_few not_portable : Message
  bad_scheme : String → Message
  duplicate : String → ℕ → Message
  unknown : String → Message
  unknown_target : TargetKind → String → Message
  invalid_time : String → Message
  deferred : String → Message
  not_configured : String → Message
  no_contact : String → String → Message

pub record Problem : Type 0 where
  pub place : Place
  pub part : String
  pub message : Message

abbrev pub problem : Place → String → Message → List Problem
problem place part message = record { place = place; part = part; message = message } ∷ []

abbrev pub fine : List Problem
fine = []

abbrev pub report_if : Bool → Place → String → Message → List Problem
report_if bad place part message = if bad then problem place part message else fine

abbrev pub is_nil {ℓ} : {A : Type ℓ} → List A → Bool
is_nil [] = true
is_nil _ = false

module _ {A : Type 0} where
  -- A loop that collects what each round reports.
  unfoldable pub each : (ℕ → A → List Problem) → ℕ → List A → List Problem
  each f i [] = []
  each f i (x ∷ xs) = f i x ++ each f (suc i) xs

-- The first place of a name among those seen so far.
unfoldable pub seen_at : String → List (String × ℕ) → Option ℕ
seen_at name [] = none
seen_at name ((n, i) ∷ seen) = if str_eq n name then some i else seen_at name seen

abbrev pub name_problems : Place → String → List (String × ℕ) → String → List Problem
name_problems place part seen n =
    if str_eq n ""
    then problem place part required
    else elim (seen_at n seen) [ some prev ↦ problem place part (duplicate n prev) | none ↦ fine ]

-- A name is kept with the place where it is first met.
abbrev pub mark : List (String × ℕ) → String → ℕ → List (String × ℕ)
mark seen n i =
    if str_eq n "" then seen else elim (seen_at n seen) [ some prev ↦ seen | none ↦ (n, i) ∷ seen ]

module _ {A : Type 0} (place : ℕ → Place) (part : String) (name_of : A → String)
    (others : ℕ → A → List Problem) where
  -- The loop over entries that have names: each is named, no name comes twice, and the rest of its checks.
  unfoldable pub entries : ℕ → List (String × ℕ) → List A → List Problem
  entries i seen [] = fine
  entries i seen (x ∷ xs) =
      (name_problems (place i) part seen (name_of x) ++ others i x)
      ++ entries (suc i) (mark seen (name_of x) i) xs
