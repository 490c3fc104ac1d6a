-- ===== src/Examples/Covered.antt =====
-- The report of a configuration whose one schedule rotates daily.
use kerberon.Base.{
  ℕ, ◌+◌, ◌*◌, ◌≡◌, refl, Option, none, some, [], ◌∷◌, if◌then◌else◌, arith, str_eq, String,
}
use kerberon.Base.Int.{pos}
use kerberon.Base.Sort.{sort}
use kerberon.Config.Model.{Config, LayerType}
use kerberon.Schedule.Zone.{Zone, day, hour, date, lookup, lookup_from, sub_days, add_days}
use kerberon.Schedule.WallClock.{resolve, occurrences, next_from, next_daily}
use kerberon.Schedule.Build.{Outcome, done, from_config, schedule_at}
use kerberon.Schedule.Build as Build
use kerberon.Schedule.Resolver.{new_resolver, gaps}
use kerberon.Schedule.Panics.{on_call}
use kerberon.Schedule.Coverage.{check_coverage, schedule_names, clean_report_covers}
use kerberon.Schedule.Turns.{IsSettled, turns-IsSettled}
use kerberon.Schedule.Layers.{layer_boundaries, user_at}
use kerberon.Examples.Rotations.{utc, nightly, nightly-IsCalendar, reaches}

abbrev load_location : String → Option Zone
load_location name = if str_eq name "UTC" then some utc else none

abbrev config : Config
config = record {
  server = record {
    listen = ":8080";
    external_url = "https://pager";
    secret_key = "k";
    ingest_token = "t";
  };
  database_path = "pager.db";
  users = [];
  teams = [];
  schedules =
      record {
        name = "ops";
        team = "ops";
        timezone = "UTC";
        layers =
            record {
              name = "primary";
              type = LayerType.rotation;
              participants = "ann" ∷ "bob" ∷ "eve" ∷ [];
              rotation = "daily";
              handoff = record { day = ""; time = "09:00"; timezone = "" };
              restriction = none;
            }
            ∷ [];
      }
      ∷ [];
  escalation_policies = [];
  routes = [];
  heartbeats = [];
  channels = record { ntfy = none; telegram = none; email = none; webhook = none };
  notifications = record { fallback_channel = ""; max_attempts = pos 5 };
}

abbrev built : Build.Schedule
built = record { name = "ops"; team = "ops"; location = utc; layers = nightly ∷ [] }

from_config-config : from_config load_location config ≡ done (built ∷ [])
unfolding from_config next_daily next_from resolve date lookup lookup_from add_days occurrences
from_config-config = refl

abbrev start : ℕ
start = 730200 * day

report_clean : check_coverage load_location config start (2 * day) ≡ done []
unfolding check_coverage sort schedule_names schedule_at gaps new_resolver layer_boundaries user_at
    resolve date lookup lookup_from sub_days occurrences add_days next_daily next_from
report_clean = refl

found_built : schedule_at (built ∷ []) "ops" ≡ some built
unfolding schedule_at
found_built = refl

nightly-IsSettled : IsSettled start (start + 2 * day) nightly
nightly-IsSettled =
    turns-IsSettled nightly refl refl nightly-IsCalendar start (start + 2 * day) (omega arith)
      (omega arith) (λ t lo hi. reaches t (omega arith))

clean_report_covers_example : (u : String) × (on_call built [] (start + 15 * hour) ≡ done (some u))
clean_report_covers_example =
    clean_report_covers load_location config start (2 * day) (built ∷ []) from_config-config
      report_clean "ops" built found_built (nightly-IsSettled, tt) (start + 15 * hour) (omega arith)
      (omega arith)
