-- ===== src/Config/Registered.antt =====
-- Where those whom `reachableUsers` of internal/config/validate.go finds come from.
use kerberon.Base.{
  ◌≡◌, subst, sym, eq_iff, String, true, some, List, [], ◌∷◌, any, All, All-append, Bool-cases,
  Option-cases, inl, inr,
}
use kerberon.Core.Enums.{TargetKind}
use kerberon.Policy.{Target}
use kerberon.Config.Model.{Config, User, Layer, has_id, user_by_id, team_by_name, schedule_by_name}
use kerberon.Config.Steps.{
  add_user, add_users, add_layers, add_target, reachable_users, team_members, schedule_layers,
}
use kerberon.Config.Reachable.{found_id}

module _ (c : Config) where
  abbrev pub Registered : List User → Type 0
  Registered out = All (λ (u : User). user_by_id c u.id ≡ some u) out

  add_user-Registered :
      (out : List User) (id : String) → Registered out → Registered (add_user c out id)
  unfolding add_user user_by_id
  add_user-Registered out id h = elim (Bool-cases (any (has_id id) out)) [
    | inl e ↦ rw e h
    | inr e ↦ elim (Option-cases (user_by_id c id)) [
      | inl f ↦ rw (e, f) h
      | inr (u, f) ↦
          let same : u.id ≡ id = (eq_iff u.id id).0 (named f) in
          rw (e, f)
            (All-append (λ (v : User). user_by_id c v.id ≡ some v) out (u ∷ []) h
              (subst (λ i. user_by_id c i ≡ some u) (sym same) f, tt))
    ]
  ]
    where
      named : {u : User} → user_by_id c id ≡ some u → has_id id u ≡ true
      named f = found_id c c.users id f

  add_users-Registered :
      (ids : List String) (out : List User) → Registered out → Registered (add_users c out ids)
  unfolding add_users
  add_users-Registered [] out h = h
  add_users-Registered (id ∷ ids) out h =
      add_users-Registered ids (add_user c out id) (add_user-Registered out id h)

  add_layers-Registered :
      (ls : List Layer) (out : List User) → Registered out → Registered (add_layers c out ls)
  unfolding add_layers
  add_layers-Registered [] out h = h
  add_layers-Registered (l ∷ ls) out h =
      add_layers-Registered ls (add_users c out l.participants)
        (add_users-Registered l.participants out h)

  add_target-Registered :
      (out : List User) (k : TargetKind) (name : String)
      → Registered out
      → Registered (add_target c out k name)
  add_target-Registered out TargetKind.user name h = add_user-Registered out name h
  add_target-Registered out TargetKind.team name h =
      add_users-Registered (team_members (team_by_name c name)) out h
  add_target-Registered out TargetKind.schedule name h =
      add_layers-Registered (schedule_layers (schedule_by_name c name)) out h
  add_target-Registered out (TargetKind.other s) name h = h

  pub reachable_users-Registered :
      (ts : List Target) (out : List User) → Registered out → Registered (reachable_users c out ts)
  unfolding reachable_users
  reachable_users-Registered [] out h = h
  reachable_users-Registered (t ∷ ts) out h =
      reachable_users-Registered ts (add_target c out t.kind t.name)
        (add_target-Registered out t.kind t.name h)
