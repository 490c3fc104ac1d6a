-- ===== src/Route.antt =====
-- internal/route/route.go: the route of an alert. Routes are tried in order and the first that matches
-- wins. The table is an atomic pointer in the program: a caller reads one table or the next, which is
-- the value that these functions take. The derived name of a route without one is the hash of its
-- criteria, team and policy, as the configuration is loaded.
use Prim.Native.String.{◌++◌, slice}
use kerberon.Base.{String, str_eq, Bool, Option, List, all, find, map, if◌then◌else◌}
use kerberon.Base.Sort.{sort}
use kerberon.Core.Time.{Duration}
use kerberon.Core.Records.{Labels}
use kerberon.Config.Model as Config
use kerberon.Config.Model.{Config}
use kerberon.Alert
use kerberon.Alert.Text.{trim_space}
use kerberon.Alert.{get, pairs, key_le, terminator}

pub record Route : Type 0 where
  pub name : String
  pub criteria : Labels
  pub team : String
  pub policy : String
  pub group_by : List String
  pub group_wait : Duration
  pub group_interval : Duration
  pub resolve_grace : Duration
  pub volatile_labels : List String

module _ (hash : String → String) where
  unfoldable pub group_key : Route → Labels → String
  group_key r labels = Alert.group_key hash r.name r.group_by labels

  unfoldable pub fingerprint : Route → Labels → String
  fingerprint r labels = Alert.fingerprint hash labels r.volatile_labels

  -- `routeName`: the configured name without its spaces, or one that does not depend on the route's
  -- place in the file.
  unfoldable pub route_name : String → Labels → String → String → String
  route_name trimmed criteria team policy =
      if str_eq trimmed ""
      then "route-"
        ++ slice (hash (pairs (sort key_le criteria) ++ team ++ terminator ++ policy)) 0 12
      else trimmed

  -- `New`: the routes of the table, from a configuration to which the defaults have been applied.
  unfoldable pub route_from_config : Config.Route → Route
  unfolding route_name trim_space
  route_from_config c = record {
    name = route_name (trim_space c.name) c.criteria c.team c.policy;
    criteria = c.criteria;
    team = c.team;
    policy = c.policy;
    group_by = c.group_by;
    group_wait = c.group_wait;
    group_interval = c.group_interval;
    resolve_grace = c.resolve_grace;
    volatile_labels = c.volatile_labels;
  }

  unfoldable pub new_router : Config → List Route
  unfolding route_from_config
  new_router c = map route_from_config c.routes

-- Every criterion holds of the labels; equality is exact.
unfoldable pub matches : Labels → Labels → Bool
matches criteria labels = all (λ p. str_eq (get p.0 labels) p.1) criteria

-- `Match`: the first route whose criteria hold.
unfoldable pub match_route : List Route → Labels → Option Route
unfolding matches
match_route routes labels = find (λ (r : Route). matches r.criteria labels) routes
