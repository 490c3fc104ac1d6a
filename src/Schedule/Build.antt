-- ===== src/Schedule/Build.antt =====
-- From the configuration to schedules (`newLayer` and `FromConfig` of internal/schedule/schedule.go). The
-- zones that `time.LoadLocation` knows are a parameter.
use kerberon.Base.{
  ◌*◌, ◌==◌, Bool, true, false, Option, none, some, List, [], ◌∷◌, if◌then◌else◌, String, str_eq,
  length,
}
use kerberon.Core.Time.{Time}
use kerberon.Config.Model.{LayerType, rotation, Config}
use kerberon.Config.Model as Config
use kerberon.Schedule.Zone.{Zone, day}
use kerberon.Schedule.WallClock.{next_weekly, next_daily}
use kerberon.Schedule.ClockText.{parse_hhmm, parse_weekday}
use kerberon.Schedule.Restriction.{new_restriction}
use kerberon.Schedule.Layers.{Layer}

-- A value, an error, or a panic of `NextDaily` or `NextWeekly`.
pub data Outcome (A : Type 0) : Type 0 where
  done : A → Outcome A
  refused : Outcome A
  panics : Outcome A

infixl 20 ◌>>=◌
abbrev pub ◌>>=◌ : {A B : Type 0} → Outcome A → (A → Outcome B) → Outcome B
done a >>= f = f a
refused >>= f = refused
panics >>= f = panics

abbrev pub or_refuse : {A : Type 0} → Option A → Outcome A
or_refuse none = refused
or_refuse (some a) = done a

abbrev pub or_panic : {A : Type 0} → Option A → Outcome A
or_panic none = panics
or_panic (some a) = done a

pub record Schedule : Type 0 where
  pub name : String
  pub team : String
  pub location : Zone
  pub layers : List Layer

-- The first of January 2000.
abbrev pub anchor_ref : Time
anchor_ref = 730119 * day

abbrev pub is_rotation : LayerType → Bool
is_rotation rotation = true
is_rotation _ = false

abbrev pub anchored : Layer → Option Time → Outcome Layer
anchored l none = panics
anchored l (some t) = done (record l { anchor = t })

unfoldable pub new_layer : Layer → Outcome Layer
new_layer l =
    if length l.participants == 0
    then refused
    else if str_eq l.rotation "weekly"
    then anchored l
        (next_weekly anchor_ref l.handoff_day l.handoff_hour l.handoff_minute l.location)
    else if str_eq l.rotation "daily"
    then anchored l (next_daily anchor_ref l.handoff_hour l.handoff_minute l.location)
    else if str_eq l.rotation ""
    then (if is_rotation l.type then refused else done l)
    else refused

-- What did not parse is an error only where `needed`; otherwise the zero value stands.
abbrev pub unless {ℓ} : {A : Type ℓ} → Bool → A → Option A → Option A
unless needed zero_value (some a) = some a
unless needed zero_value none = if needed then none else some zero_value

module _ (load_location : String → Option Zone) where
  abbrev pub layer_zone : Zone → String → Option Zone
  layer_zone z name = if str_eq name "" then some z else load_location name

  unfoldable pub build_layer : Zone → Config.Layer → Outcome Layer
  unfolding new_layer parse_hhmm parse_weekday new_restriction
  build_layer z cl = do
    location ← or_refuse (layer_zone z cl.handoff.timezone)
    clock ← or_refuse (unless (is_rotation cl.type) (0, 0) (parse_hhmm cl.handoff.time))
    wd ← or_refuse (unless (str_eq cl.rotation "weekly") 0 (parse_weekday cl.handoff.day))
    r ← or_refuse (new_restriction cl.restriction)
    new_layer (record {
      name = cl.name;
      type = cl.type;
      participants = cl.participants;
      rotation = cl.rotation;
      handoff_day = wd;
      handoff_hour = clock.0;
      handoff_minute = clock.1;
      location = location;
      restriction = r;
      anchor = 0;
    })

  unfoldable pub build_layers : Zone → List Config.Layer → Outcome (List Layer)
  unfolding build_layer
  build_layers z [] = done []
  build_layers z (cl ∷ cls) = build_layer z cl >>= λ l. build_layers z cls >>= λ ls. done (l ∷ ls)

  unfoldable pub build_schedule : Config.Schedule → Outcome Schedule
  unfolding build_layers
  build_schedule cs = do
    z ← or_refuse (load_location cs.timezone)
    layers ← build_layers z cs.layers
    done (record { name = cs.name; team = cs.team; location = z; layers = layers })

  unfoldable pub build_all : List Config.Schedule → Outcome (List Schedule)
  unfolding build_schedule
  build_all [] = done []
  build_all (cs ∷ css) = build_schedule cs >>= λ s. build_all css >>= λ ss. done (s ∷ ss)

  -- The map from names: where a name comes twice, the last schedule of the list is the one it holds.
  unfoldable pub from_config : Config → Outcome (List Schedule)
  unfolding build_all
  from_config c = build_all c.schedules

abbrev pub has_name : String → Schedule → Bool
has_name name s = str_eq s.name name

abbrev pub last_of : Option Schedule → Option Schedule → Option Schedule
last_of (some s) first = some s
last_of none first = first

unfoldable pub schedule_at : List Schedule → String → Option Schedule
schedule_at [] name = none
schedule_at (s ∷ ss) name = last_of (schedule_at ss name) (if has_name name s then some s else none)
