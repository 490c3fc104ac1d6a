-- ===== src/Config/Rotas.antt =====
-- The checks of internal/config/validate.go on time zones, layers and restrictions. The zones that
-- `time.LoadLocation` knows are a parameter.
use kerberon.Base.{
  ℕ, String, str_eq, Bool, true, false, not, ◌&&◌, ◌||◌, Option, none, some, List, [], ◌∷◌, ◌++◌,
  any, if◌then◌else◌,
}
use kerberon.Alert.Text.{to_lower}
use kerberon.Schedule.ClockText.{parse_hhmm}
use kerberon.Config.Model.{
  Config, Layer, LayerType, rotation, restriction, blank, other, user_by_id,
}
use kerberon.Config.Problem.{
  Problem, Place, layer, participant, required, unknown, not_portable, invalid_time, same_time,
  none_given, problem, fine, report_if, each, is_nil,
}

abbrev pub missing {ℓ} : {A : Type ℓ} → Option A → Bool
missing none = true
missing (some _) = false

abbrev valid_days : List String
valid_days = "monday" ∷ "tuesday" ∷ "wednesday" ∷ "thursday" ∷ "friday" ∷ "saturday" ∷ "sunday" ∷ []

unfoldable pub is_day : String → Bool
unfolding to_lower
is_day d = any (str_eq (to_lower d)) valid_days

abbrev pub is_rotation : LayerType → Bool
is_rotation rotation = true
is_rotation _ = false

abbrev pub is_restriction : LayerType → Bool
is_restriction restriction = true
is_restriction _ = false

module _ (known_zone : String → Bool) where
  unfoldable pub validate_timezone : Place → String → String → Bool → List Problem
  validate_timezone place part tz needed =
      if str_eq tz ""
      then report_if needed place part required
      else if str_eq tz "Local"
      then problem place part not_portable
      else report_if (not (known_zone tz)) place part (unknown tz)

  abbrev time_problems : Place → String → String → List Problem
  time_problems place part t =
      report_if (not (str_eq t "") && missing (parse_hhmm t)) place part (invalid_time t)

  unfoldable pub validate_restriction : Place → Layer → List Problem
  unfolding is_day parse_hhmm
  validate_restriction place l = elim l.restriction [
    | none ↦ report_if (is_restriction l.type) place "restriction" required
    | some r ↦
        report_if (str_eq r.start "" || str_eq r.end "") place "restriction" required
        ++ (time_problems place "restriction.start" r.start
            ++ (time_problems place "restriction.end" r.end
                ++ (report_if (not (str_eq r.start "") && str_eq r.start r.end) place "restriction"
                      same_time
                    ++ each (λ k d. report_if (not (is_day d)) place "restriction.days" (unknown d))
                        0 r.days)))
  ]

  abbrev pub type_problems : Place → LayerType → List Problem
  type_problems place rotation = fine
  type_problems place restriction = fine
  type_problems place blank = problem place "type" required
  type_problems place (other s) = problem place "type" (unknown s)

  abbrev rotation_problems : Place → String → List Problem
  rotation_problems place r =
      if str_eq r "daily" || str_eq r "weekly"
      then fine
      else if str_eq r ""
      then problem place "rotation" required
      else problem place "rotation" (unknown r)

  abbrev handoff_time : Place → Layer → List Problem
  handoff_time place l =
      if str_eq l.handoff.time ""
      then report_if (is_rotation l.type) place "handoff.time" required
      else time_problems place "handoff.time" l.handoff.time

  unfoldable pub validate_layer : Config → ℕ → ℕ → Layer → List Problem
  unfolding is_day parse_hhmm validate_timezone validate_restriction user_by_id
  validate_layer c si li l =
      type_problems (layer si li) l.type
      ++ (report_if (is_nil l.participants) (layer si li) "participants" none_given
          ++ (each
                (λ k p. report_if (missing (user_by_id c p)) (participant si li k) "" (unknown p)) 0
                l.participants
              ++ ((if is_rotation l.type then rotation_problems (layer si li) l.rotation else fine)
                  ++ (report_if (not (str_eq l.handoff.day "") && not (is_day l.handoff.day))
                        (layer si li) "handoff.day" (unknown l.handoff.day)
                      ++ (report_if (str_eq l.rotation "weekly" && str_eq l.handoff.day "")
                            (layer si li) "handoff.day" required
                          ++ (handoff_time (layer si li) l
                              ++ ((if str_eq l.handoff.timezone ""
                                    then fine
                                    else validate_timezone (layer si li) "handoff.timezone"
                                        l.handoff.timezone true)
                                  ++ validate_restriction (layer si li) l)))))))
