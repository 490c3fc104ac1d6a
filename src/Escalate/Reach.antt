-- ===== src/Escalate/Reach.antt =====
-- Between the checks of the configuration (internal/config/validate.go) and the escalation: those whom a step
-- resolves to (`ResolveTargets` of internal/escalate/adapters.go), and the step's channels.
use kerberon.Base.{
  ℕ, ◌+◌, ◌≡◌, refl, ◌∙◌, subst, inl, inr, String, str_eq, eq_iff, Bool, true, ◌||◌, Option, none,
  some, List, [], ◌∷◌, any, map, get_elem?, All, All-map, All-append, Bool-cases, Option-cases,
}
use kerberon.Core.Time.{Time}
use kerberon.Core.Enums.{TargetKind}
use kerberon.Core.Records.{Override}
use kerberon.Policy.{Target}
use kerberon.Config.Model.{
  Config, User, Step, EscalationPolicy, has_id, user_by_id, team_by_name, schedule_by_name,
}
use kerberon.Config.Steps.{target_known, has_contact, reachable_users}
use kerberon.Config.Validate.{validate}
use kerberon.Config.Sound.{All-get_elem?}
use kerberon.Config.Reachable.{Sound, Gathered, Found, reachable_users-gathers}
use kerberon.Config.Registered.{Registered, reachable_users-Registered}
use kerberon.Config.Accepted.{Accepted, StepAccepted, validate-Accepted}
use kerberon.Schedule.Zone.{Zone}
use kerberon.Schedule.Build.{Outcome, done, from_config, build_all, schedule_at}
use kerberon.Schedule.Build as Build
use kerberon.Schedule.Panics.{on_call, on_call-done}
use kerberon.Schedule.Built.{bound}
use kerberon.Schedule.Staff.{schedule_at-Staffed, at-Staffed}
use kerberon.Escalate.Targets.{
  TargetState, team_at, team_entry, new_schedule_targets, add, add_all, sorted_members, add_on_call,
  add_target, resolve_from, resolve_targets,
}
use kerberon.Escalate.Lookups.{target-Sound, team_at-All}

-- ─── What a target adds ───

module _ (Q : String → Type 0) where
  add-All : (out : List String) (id : String) → All Q out → Q id → All Q (add out id)
  add-All out id h q = elim (Bool-cases (str_eq id "" || any (str_eq id) out)) [
    | inl e ↦ rw e h
    | inr e ↦ rw e (All-append Q out (id ∷ []) h (q, tt))
  ]

  add_all-All :
      (ids : List String) (out : List String) → All Q out → All Q ids → All Q (add_all out ids)
  unfolding add_all
  add_all-All [] out h q = h
  add_all-All (id ∷ ids) out h q = add_all-All ids (add out id) (add-All out id h q.0) q.1

  added_on_call :
      (out : List String) (o : Option String)
      → All Q out
      → ((u : String) → o ≡ some u → Q u)
      → All Q (add_on_call out o)
  added_on_call out none h q = h
  added_on_call out (some u) h q = add-All out u h (q u refl)

module _ (load_location : String → Option Zone)
    (overrides_in_window : String → Time → Time → Option (List Override))
    (quiet : (name : String) (from to : Time) → overrides_in_window name from to ≡ some [])
    (c : Config) (a : Accepted c) (ss : List Build.Schedule)
    (built : from_config load_location c ≡ done ss) (t : Time) where
  abbrev targets_now : TargetState
  targets_now = record { schedules = ss; teams = map team_entry c.teams }

  add_target-All :
      (out next : List String) (users : List User) (k : TargetKind) (name : String)
      → Gathered c users k name
      → All (Found users) out
      → add_target overrides_in_window targets_now t out (record { kind = k; name = name })
        ≡ done next
      → All (Found users) next
  unfolding add_target from_config team_by_name schedule_by_name
  add_target-All out next users TargetKind.user name g h e =
      let same : add out name ≡ next = cc e in
      subst (All (Found users)) same (add-All (Found users) out name h g)
  add_target-All out next users TargetKind.team name g h e =
      let same : add_all out (sorted_members (team_at (map team_entry c.teams) name)) ≡ next =
        cc e in
      subst (All (Found users)) same (
        add_all-All (Found users) (sorted_members (team_at (map team_entry c.teams) name)) out h
          (team_at-All (Found users) name c.teams a.teams_apart g))
  add_target-All out next users TargetKind.schedule name g h e =
      elim (Option-cases (schedule_at ss name)) [
        | inl f ↦
            let same : out ≡ next = cc (rw (f, add_target) at e) in subst (All (Found users)) same h
        | inr (s, f) ↦
            let staffed =
              schedule_at-Staffed load_location (Found users) name c.schedules ss s built
                a.schedules_apart g f in
            let (o, on, h') =
              bound (on_call s [] t) (λ user. done (add_on_call out user))
                (rw (f, quiet name t (t + 1), add_target) at e) in
            let same : add_on_call out o ≡ next = cc h' in
            let answer = on_call-done s [] t o on in
            subst (All (Found users)) same (
              added_on_call (Found users) out o h
                (λ u found. at-Staffed (Found users) s t u staffed (answer ∙ found)))
      ]
  add_target-All out next users (TargetKind.other s) name g h e =
      let same : out ≡ next = cc e in subst (All (Found users)) same h

  resolve_from-All :
      (users : List User) (targets : List Target) (out ids : List String)
      → All (λ (x : Target). Gathered c users x.kind x.name) targets
      → All (Found users) out
      → resolve_from overrides_in_window targets_now t out targets ≡ done ids
      → All (Found users) ids
  unfolding resolve_from
  resolve_from-All users [] out ids g h e =
      let same : out ≡ ids = cc e in subst (All (Found users)) same h
  resolve_from-All users (x ∷ targets) out ids g h e =
      let (next, f, later) =
        bound (add_target overrides_in_window targets_now t out x)
          (λ next. resolve_from overrides_in_window targets_now t next targets) e in
      resolve_from-All users targets next ids g.1
        (add_target-All out next users x.kind x.name g.0 h f) later

-- A user of the configuration that has a contact on every one of the channels.
abbrev pub Reachable : Config → List String → String → Type 0
Reachable c channels id =
    (u : User) × (user_by_id c id ≡ some u) × All (λ ch. has_contact ch u ≡ true) channels

Found-Reachable :
    (c : Config) (users : List User) (channels : List String) (id : String)
    → Registered c users
    → All (λ ch. All (λ u. has_contact ch u ≡ true) users) channels
    → Found users id
    → Reachable c channels id
Found-Reachable c [] channels id r h f = absurd (cc f)
Found-Reachable c (u ∷ users) channels id r h f = elim (Bool-cases (has_id id u)) [
  | inl e ↦
      let same : u.id ≡ id = (eq_iff u.id id).0 e in
      (
        u,
        subst (λ i. user_by_id c i ≡ some u) same r.0,
        All-map (λ ch. All (λ v. has_contact ch v ≡ true) (u ∷ users))
            (λ ch. has_contact ch u ≡ true) channels (λ ch g. g.0) h,
      )
  | inr e ↦
      Found-Reachable c users channels id r.1
        (All-map (λ ch. All (λ v. has_contact ch v ≡ true) (u ∷ users))
          (λ ch. All (λ v. has_contact ch v ≡ true) users) channels (λ ch g. g.1) h)
        (rw e at f)
]

-- With a configuration that passes the checks, and where no override is in force, everyone that the targets of
-- a step resolve to, at any instant, is a user of the configuration with a contact on each channel of the step.
pub resolve_targets-Reachable :
    (parse_url : String → Option (String × String)) (known_zone : String → Bool)
    (load_location : String → Option Zone)
    (overrides_in_window : String → Time → Time → Option (List Override)) (c : Config)
    (ss : List Build.Schedule) (p : EscalationPolicy) (s : Step) (i j : ℕ) (t : Time)
    (ids : List String)
    → ((name : String) (from to : Time) → overrides_in_window name from to ≡ some [])
    → validate parse_url known_zone c ≡ []
    → from_config load_location c ≡ done ss
    → get_elem? c.escalation_policies i ≡ some p
    → get_elem? p.steps j ≡ some s
    → resolve_targets overrides_in_window (new_schedule_targets c ss) t s.targets ≡ done ids
    → All (Reachable c s.channels) ids
unfolding resolve_targets new_schedule_targets
resolve_targets-Reachable parse_url known_zone load_location overrides_in_window c ss p s i j t ids
      quiet valid built pi si resolved =
    let a = validate-Accepted c known_zone parse_url valid in
    let step =
      All-get_elem? (StepAccepted c) p.steps j
        (All-get_elem? (λ (q : EscalationPolicy). All (StepAccepted c) q.steps)
          c.escalation_policies i a.steps pi)
        si in
    let users = reachable_users c [] s.targets in
    let sound =
      All-map (λ (x : Target). target_known c x.kind x.name ≡ true)
        (λ (x : Target). Sound c x.kind x.name) s.targets (λ x. target-Sound c a x.kind x.name)
        step.known in
    let found =
      resolve_from-All load_location overrides_in_window quiet c a ss built t users s.targets [] ids
        (reachable_users-gathers c s.targets [] sound) tt resolved in
    All-map (Found users) (Reachable c s.channels) ids
      (λ id.
        Found-Reachable c users s.channels id (reachable_users-Registered c s.targets [] tt)
          step.contacts)
      found
