-- ===== src/Config/Accepted.antt =====
-- What a configuration has where `Validate` of internal/config/validate.go reports nothing.
use kerberon.Base.{
  ℕ, ◌≡◌, inl, inr, String, str_eq, Bool, true, false, not, ◌&&◌, Option, List, [], ◌∷◌, ◌++◌, All,
  All-map, Bool-cases, arith, if◌then◌else◌,
}
use kerberon.Policy.{Target}
use kerberon.Config.Model.{
  Config, Team, Schedule, Layer, Step, User, EscalationPolicy, user_by_id, team_by_name,
}
use kerberon.Config.Problem.{
  Problem, Place, participant, layer, unknown, unknown_target, none_given, not_configured,
  no_contact, problem, report_if, each, is_nil,
}
use kerberon.Config.Rotas.{missing, validate_layer, validate_timezone, type_problems}
use kerberon.Config.Steps.{
  validate_policies, policy_problems, repeat_problems, validate_step, target_problems,
  channel_problems, contact_problems, target_known, has_contact, reachable_users, is_known,
  is_deferred, channel_configured,
}
use kerberon.Config.Validate.{
  validate, validate_server, validate_users, validate_teams, validate_schedules, team_problems,
  member_problems, schedule_problems,
}
use kerberon.Config.Sound.{
  nothing-append, nothing-report_if, nothing-each, nothing-entries, Distinct,
}
use kerberon.Config.Reachable.{Known, Staffed}

not-false : (b : Bool) → not b ≡ false → b ≡ true
not-false b h = ground arith

module _ (c : Config) where
  -- Every target of a step is known, and everyone whom it could page has a contact on each of its channels.
  pub record StepAccepted (s : Step) : Type 0 where
    pub known : All (λ (t : Target). target_known c t.kind t.name ≡ true) s.targets
    pub contacts :
        All (λ ch. All (λ u. has_contact ch u ≡ true) (reachable_users c [] s.targets)) s.channels

  pub record Accepted : Type 0 where
    pub teams_apart : Distinct (λ (t : Team). t.name) c.teams
    pub members : All (λ (t : Team). All (Known c) t.members) c.teams
    pub schedules_apart : Distinct (λ (s : Schedule). s.name) c.schedules
    pub staff : All (λ (s : Schedule). Staffed (Known c) s.layers) c.schedules
    pub steps : All (λ (p : EscalationPolicy). All StepAccepted p.steps) c.escalation_policies

  contacts_nothing :
      (place : Place) (reachable : List User) (k : ℕ) (ch : String)
      → channel_problems c place reachable k ch ≡ []
      → All (λ u. has_contact ch u ≡ true) reachable
  unfolding channel_problems
  contacts_nothing place reachable k ch h = elim (Bool-cases (not (is_known ch))) [
    | inl e ↦ absurd (cc (rw (e, channel_problems) at h))
    | inr e ↦ elim (Bool-cases (is_deferred ch)) [
      | inl f ↦ absurd (cc (rw (e, f, channel_problems) at h))
      | inr f ↦
          let both : (report_if (not (channel_configured c.channels ch)) place "channels"
                  (not_configured ch)
                ++ each (contact_problems place ch) 0 reachable)
              ≡ [] =
            rw (e, f, channel_problems) at h in
          let (_, some_contact) =
            nothing-append
              (report_if (not (channel_configured c.channels ch)) place "channels"
                (not_configured ch))
              (each (contact_problems place ch) 0 reachable) both in
          All-map (λ u. (j : ℕ) × (contact_problems place ch j u ≡ []))
            (λ u. has_contact ch u ≡ true) reachable
            (λ u (j, g).
              not-false (has_contact ch u) (
                nothing-report_if (not (has_contact ch u)) place "channels" (no_contact u.id ch) g))
            (nothing-each (contact_problems place ch) 0 reachable some_contact)
    ]
  ]

  step_nothing : (pi si : ℕ) (s : Step) → validate_step c pi si s ≡ [] → StepAccepted s
  unfolding validate_step target_problems
  step_nothing pi si s h =
      let place = Place.step pi si in
      let reachable = reachable_users c [] s.targets in
      let (_, h1) = nothing-append (report_if (is_nil s.targets) place "targets" none_given) _ h in
      let (targets, h2) = nothing-append (each (target_problems c place) 0 s.targets) _ h1 in
      let (_, channels) =
        nothing-append (report_if (is_nil s.channels) place "channels" none_given) _ h2 in
      record {
        known =
            All-map (λ t. (k : ℕ) × (target_problems c place k t ≡ []))
              (λ (t : Target). target_known c t.kind t.name ≡ true) s.targets
              (λ t (k, g). not-false (target_known c t.kind t.name) (
                nothing-report_if (not (target_known c t.kind t.name)) place "targets"
                  (unknown_target t.kind t.name) g))
              (nothing-each (target_problems c place) 0 s.targets targets);
        contacts =
            All-map (λ ch. (k : ℕ) × (channel_problems c place reachable k ch ≡ []))
              (λ ch. All (λ u. has_contact ch u ≡ true) reachable) s.channels
              (λ ch (k, g). contacts_nothing place reachable k ch g)
              (nothing-each (channel_problems c place reachable) 0 s.channels channels);
      }

  policy_nothing :
      (i : ℕ) (p : EscalationPolicy) → policy_problems c i p ≡ [] → All StepAccepted p.steps
  unfolding policy_problems
  policy_nothing i p h =
      let (_, steps) = nothing-append (repeat_problems (Place.policy i) p.repeat) _ h in
      All-map (λ s. (k : ℕ) × (validate_step c i k s ≡ [])) StepAccepted p.steps
        (λ s (k, g). step_nothing i k s g)
        (nothing-each (validate_step c i) 0 p.steps (steps_of p.steps steps))
    where
      steps_of :
          (ss : List Step)
          → (if is_nil ss
              then problem (Place.policy i) "steps" none_given
              else each (validate_step c i) 0 ss)
            ≡ []
          → each (validate_step c i) 0 ss ≡ []
      steps_of [] e = absurd (cc e)
      steps_of (s ∷ ss) e = e

  team_nothing : (i : ℕ) (t : Team) → team_problems c i t ≡ [] → All (Known c) t.members
  unfolding team_problems
  team_nothing i t h =
      let (_, ms) =
        nothing-append (report_if (is_nil t.members) (Place.team i) "members" none_given) _ h in
      All-map (λ m. (k : ℕ) × (member_problems c i k m ≡ [])) (Known c) t.members
        (λ m (k, g).
          nothing-report_if (missing (user_by_id c m)) (Place.member i k) "" (unknown m) g)
        (nothing-each (member_problems c i) 0 t.members ms)

  module _ (known_zone : String → Bool) where
    layer_nothing :
        (si li : ℕ) (l : Layer)
        → validate_layer known_zone c si li l ≡ []
        → All (Known c) l.participants
    unfolding validate_layer
    layer_nothing si li l h =
        let (_, h1) = nothing-append (type_problems known_zone (layer si li) l.type) _ h in
        let (_, h2) =
          nothing-append (report_if (is_nil l.participants) (layer si li) "participants" none_given)
            _ h1 in
        let (ps, _) = nothing-append (each participant_problems 0 l.participants) _ h2 in
        All-map (λ p. (k : ℕ) × (participant_problems k p ≡ [])) (Known c) l.participants
          (λ p (k, g).
            nothing-report_if (missing (user_by_id c p)) (participant si li k) "" (unknown p) g)
          (nothing-each participant_problems 0 l.participants ps)
      where
        participant_problems : ℕ → String → List Problem
        participant_problems k p =
            report_if (missing (user_by_id c p)) (participant si li k) "" (unknown p)

    schedule_nothing :
        (i : ℕ) (s : Schedule)
        → schedule_problems known_zone c i s ≡ []
        → Staffed (Known c) s.layers
    unfolding schedule_problems
    schedule_nothing i s h =
        let (_, h1) =
          nothing-append
            (report_if (not (str_eq s.team "") && missing (team_by_name c s.team))
              (Place.schedule i) "team" (unknown s.team))
            _ h in
        let (_, layers) =
          nothing-append
            (validate_timezone known_zone (Place.schedule i) "timezone" s.timezone true) _ h1 in
        All-map (λ l. (k : ℕ) × (validate_layer known_zone c i k l ≡ []))
          (λ (l : Layer). All (Known c) l.participants) s.layers (λ l (k, g). layer_nothing i k l g)
          (nothing-each (validate_layer known_zone c i) 0 s.layers (layers_of s.layers layers))
      where
        layers_of :
            (ls : List Layer)
            → (if is_nil ls
                then problem (Place.schedule i) "layers" none_given
                else each (validate_layer known_zone c i) 0 ls)
              ≡ []
            → each (validate_layer known_zone c i) 0 ls ≡ []
        layers_of [] e = absurd (cc e)
        layers_of (l ∷ ls) e = e

    pub validate-Accepted :
        (parse_url : String → Option (String × String))
        → validate parse_url known_zone c ≡ []
        → Accepted
    unfolding validate validate_teams validate_schedules validate_policies
    validate-Accepted parse_url h =
        let (_, h1) = nothing-append (validate_server parse_url c) _ h in
        let (_, h2) = nothing-append (validate_users known_zone c) _ h1 in
        let (teams, h3) = nothing-append (validate_teams c) _ h2 in
        let (schedules, h4) = nothing-append (validate_schedules known_zone c) _ h3 in
        let (policies, _) = nothing-append (validate_policies c) _ h4 in
        let (teams_apart, ts) =
          nothing-entries Place.team "name" (λ (t : Team). t.name) (team_problems c) c.teams
            teams in
        let (schedules_apart, ss) =
          nothing-entries Place.schedule "name" (λ (s : Schedule). s.name)
            (schedule_problems known_zone c) c.schedules schedules in
        let (_, ps) =
          nothing-entries Place.policy "name" (λ (p : EscalationPolicy). p.name) (policy_problems c)
            c.escalation_policies policies in
        record {
          teams_apart = teams_apart;
          members =
              All-map (λ t. (k : ℕ) × (team_problems c k t ≡ []))
                (λ (t : Team). All (Known c) t.members) c.teams (λ t (k, g). team_nothing k t g) ts;
          schedules_apart = schedules_apart;
          staff =
              All-map (λ s. (k : ℕ) × (schedule_problems known_zone c k s ≡ []))
                (λ (s : Schedule). Staffed (Known c) s.layers) c.schedules
                (λ s (k, g). schedule_nothing k s g) ss;
          steps =
              All-map (λ p. (k : ℕ) × (policy_problems c k p ≡ []))
                (λ (p : EscalationPolicy). All StepAccepted p.steps) c.escalation_policies
                (λ p (k, g). policy_nothing k p g) ps;
        }
