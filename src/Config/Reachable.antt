-- ===== src/Config/Reachable.antt =====
-- What `reachableUsers` of internal/config/validate.go finds.
use kerberon.Base.{
  ◌≡◌, subst, String, Bool, true, false, some, List, [], ◌∷◌, ◌++◌, any, find, arith, All, All-map,
  Bool-cases, Option-cases, inl, inr,
}
use kerberon.Core.Enums.{TargetKind}
use kerberon.Policy.{Target}
use kerberon.Config.Model.{Config, User, Layer, has_id, user_by_id, team_by_name, schedule_by_name}
use kerberon.Config.Rotas.{missing}
use kerberon.Config.Steps.{
  add_user, add_users, add_layers, add_target, reachable_users, team_members, schedule_layers,
}

-- The user is among those found.
abbrev pub Found : List User → String → Type 0
Found out id = any (has_id id) out ≡ true

any-append_left : (q : User → Bool) (xs ys : List User) → any q xs ≡ true → any q (xs ++ ys) ≡ true
any-append_left q [] ys h = absurd (cc h)
any-append_left q (x ∷ xs) ys h = ground (arith, any-append_left q xs ys)

any-last : (q : User → Bool) (xs : List User) (u : User) → q u ≡ true → any q (xs ++ u ∷ []) ≡ true
any-last q [] u h = ground arith
any-last q (x ∷ xs) u h = ground (arith, any-last q xs u h)

-- Everyone whom a layer lists has the property.
abbrev pub Staffed : (String → Type 0) → List Layer → Type 0
Staffed P ls = All (λ (l : Layer). All P l.participants) ls

module _ (c : Config) where
  add_user-keeps : (out : List User) (id j : String) → Found out j → Found (add_user c out id) j
  unfolding add_user
  add_user-keeps out id j h = elim (Bool-cases (any (has_id id) out)) [
    | inl e ↦ rw e h
    | inr e ↦ elim (Option-cases (user_by_id c id)) [
      | inl f ↦ rw (e, f) h
      | inr (u, f) ↦ rw (e, f) (any-append_left (has_id j) out (u ∷ []) h)
    ]
  ]

  pub found_id :
      (us : List User) (id : String) {u : User} → find (has_id id) us ≡ some u → has_id id u ≡ true
  found_id [] id h = absurd (cc h)
  found_id (v ∷ us) id {u} h = elim (Bool-cases (has_id id v)) [
    | inl e ↦ let same : v ≡ u = cc (rw e at h) in subst (λ w. has_id id w ≡ true) same e
    | inr e ↦ found_id us id (rw e at h)
  ]

  add_user-finds :
      (out : List User) (id : String)
      → missing (user_by_id c id) ≡ false
      → Found (add_user c out id) id
  unfolding add_user user_by_id
  add_user-finds out id known = elim (Bool-cases (any (has_id id) out)) [
    | inl e ↦ rw e e
    | inr e ↦ elim (Option-cases (find (has_id id) c.users)) [
      | inl f ↦ absurd (cc (rw f at known))
      | inr (u, f) ↦ rw (e, f) (any-last (has_id id) out u (found_id c.users id f))
    ]
  ]

  add_users-keeps :
      (ids : List String) (out : List User) (j : String)
      → Found out j
      → Found (add_users c out ids) j
  unfolding add_users
  add_users-keeps [] out j h = h
  add_users-keeps (id ∷ ids) out j h =
      add_users-keeps ids (add_user c out id) j (add_user-keeps out id j h)

  abbrev pub Known : String → Type 0
  Known id = missing (user_by_id c id) ≡ false

  add_users-finds :
      (ids : List String) (out : List User) → All Known ids → All (Found (add_users c out ids)) ids
  unfolding add_users
  add_users-finds [] out h = tt
  add_users-finds (id ∷ ids) out h = (
    add_users-keeps ids (add_user c out id) id (add_user-finds out id h.0),
    add_users-finds ids (add_user c out id) h.1,
  )

  add_layers-keeps :
      (ls : List Layer) (out : List User) (j : String) → Found out j → Found (add_layers c out ls) j
  unfolding add_layers
  add_layers-keeps [] out j h = h
  add_layers-keeps (l ∷ ls) out j h =
      add_layers-keeps ls (add_users c out l.participants) j
        (add_users-keeps l.participants out j h)

  add_layers-finds :
      (ls : List Layer) (out : List User)
      → Staffed Known ls
      → Staffed (Found (add_layers c out ls)) ls
  unfolding add_layers
  add_layers-finds [] out h = tt
  add_layers-finds (l ∷ ls) out h = (
    All-map (Found (add_users c out l.participants))
        (Found (add_layers c (add_users c out l.participants) ls)) l.participants
        (λ id f. add_layers-keeps ls (add_users c out l.participants) id f)
        (add_users-finds l.participants out h.0),
    add_layers-finds ls (add_users c out l.participants) h.1,
  )

  add_target-keeps :
      (out : List User) (k : TargetKind) (name j : String)
      → Found out j
      → Found (add_target c out k name) j
  add_target-keeps out TargetKind.user name j h = add_user-keeps out name j h
  add_target-keeps out TargetKind.team name j h =
      add_users-keeps (team_members (team_by_name c name)) out j h
  add_target-keeps out TargetKind.schedule name j h =
      add_layers-keeps (schedule_layers (schedule_by_name c name)) out j h
  add_target-keeps out (TargetKind.other s) name j h = h

  pub reachable_users-keeps :
      (ts : List Target) (out : List User) (j : String)
      → Found out j
      → Found (reachable_users c out ts) j
  unfolding reachable_users
  reachable_users-keeps [] out j h = h
  reachable_users-keeps (t ∷ ts) out j h =
      reachable_users-keeps ts (add_target c out t.kind t.name) j
        (add_target-keeps out t.kind t.name j h)

  -- What a target names is known, and so is everyone in it.
  abbrev pub Sound : TargetKind → String → Type 0
  Sound TargetKind.user name = Known name
  Sound TargetKind.team name = All Known (team_members (team_by_name c name))
  Sound TargetKind.schedule name = Staffed Known (schedule_layers (schedule_by_name c name))
  Sound (TargetKind.other s) name = Unit

  -- Everyone in it is found.
  abbrev pub Gathered : List User → TargetKind → String → Type 0
  Gathered out TargetKind.user name = Found out name
  Gathered out TargetKind.team name = All (Found out) (team_members (team_by_name c name))
  Gathered out TargetKind.schedule name =
      Staffed (Found out) (schedule_layers (schedule_by_name c name))
  Gathered out (TargetKind.other s) name = Unit

  pub add_target-gathers :
      (out : List User) (k : TargetKind) (name : String)
      → Sound k name
      → Gathered (add_target c out k name) k name
  add_target-gathers out TargetKind.user name h = add_user-finds out name h
  add_target-gathers out TargetKind.team name h =
      add_users-finds (team_members (team_by_name c name)) out h
  add_target-gathers out TargetKind.schedule name h =
      add_layers-finds (schedule_layers (schedule_by_name c name)) out h
  add_target-gathers out (TargetKind.other s) name h = tt

  Gathered-keeps :
      (out out' : List User)
      → ((j : String) → Found out j → Found out' j)
      → (k : TargetKind) (name : String) → Gathered out k name
      → Gathered out' k name
  Gathered-keeps out out' f TargetKind.user name g = f name g
  Gathered-keeps out out' f TargetKind.team name g =
      All-map (Found out) (Found out') (team_members (team_by_name c name)) f g
  Gathered-keeps out out' f TargetKind.schedule name g =
      All-map (λ (l : Layer). All (Found out) l.participants)
        (λ (l : Layer). All (Found out') l.participants) (schedule_layers (schedule_by_name c name))
        (λ l. All-map (Found out) (Found out') l.participants f) g
  Gathered-keeps out out' f (TargetKind.other s) name g = tt

  -- Everyone in the targets of a step is found.
  pub reachable_users-gathers :
      (ts : List Target) (out : List User)
      → All (λ (t : Target). Sound t.kind t.name) ts
      → All (λ (t : Target). Gathered (reachable_users c out ts) t.kind t.name) ts
  unfolding reachable_users
  reachable_users-gathers [] out h = tt
  reachable_users-gathers (t ∷ ts) out h =
      let next = add_target c out t.kind t.name in
      (
        Gathered-keeps next (reachable_users c next ts) (reachable_users-keeps ts next) t.kind
            t.name (add_target-gathers out t.kind t.name h.0),
        reachable_users-gathers ts next h.1,
      )
