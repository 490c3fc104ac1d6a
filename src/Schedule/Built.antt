-- ===== src/Schedule/Built.antt =====
-- The participants of a configured layer and of the layer that is built of it (`newLayer` and `FromConfig` of
-- internal/schedule/schedule.go).
use kerberon.Base.{
  ◌≡◌, refl, ap, sym, subst, inl, inr, Option, none, some, List, [], ◌∷◌, ◌==◌, String, str_eq,
  length, All, Bool-cases,
}
use kerberon.Core.Time.{Time}
use kerberon.Config.Model.{schedule_named}
use kerberon.Config.Model as Config
use kerberon.Config.Reachable.{Staffed}
use kerberon.Schedule.Zone.{Zone}
use kerberon.Schedule.WallClock.{next_weekly, next_daily}
use kerberon.Schedule.ClockText.{parse_hhmm, parse_weekday}
use kerberon.Schedule.Restriction.{new_restriction}
use kerberon.Schedule.Layers.{Layer}
use kerberon.Schedule.Build.{
  Outcome, done, refused, panics, ◌>>=◌, or_refuse, anchored, anchor_ref, is_rotation, unless,
  new_layer, build_layer, build_layers, build_schedule, build_all, schedule_at, layer_zone, last_of,
}
use kerberon.Schedule.Build as Build

-- Everyone whom a built layer lists has the property.
abbrev pub BuiltStaffed : (String → Type 0) → List Layer → Type 0
BuiltStaffed Q ls = All (λ (l : Layer). All Q l.participants) ls

-- ─── Building keeps the participants ───

pub bound :
    {A B : Type 0} (m : Outcome A) (f : A → Outcome B) {b : B}
    → m >>= f ≡ done b
    → (a : A) × (m ≡ done a) × (f a ≡ done b)
bound (done a) f h = (a, refl, h)
bound refused f h = absurd (cc h)
bound panics f h = absurd (cc h)

anchored-participants :
    (l l' : Layer) (o : Option Time) → anchored l o ≡ done l' → l'.participants ≡ l.participants
anchored-participants l l' none h = absurd (cc h)
anchored-participants l l' (some t) h =
    let same : record l { anchor = t } ≡ l' = cc h in ap (λ (x : Layer). x.participants) (sym same)

new_layer-participants : (l l' : Layer) → new_layer l ≡ done l' → l'.participants ≡ l.participants
unfolding new_layer
new_layer-participants l l' h = elim (Bool-cases (length l.participants == 0)) [
  | inl e ↦ absurd (cc (rw (e, new_layer) at h))
  | inr e ↦ elim (Bool-cases (str_eq l.rotation "weekly")) [
    | inl f ↦
        anchored-participants l l'
          (next_weekly anchor_ref l.handoff_day l.handoff_hour l.handoff_minute l.location)
          (rw (e, f, new_layer) at h)
    | inr f ↦ elim (Bool-cases (str_eq l.rotation "daily")) [
      | inl g ↦
          anchored-participants l l'
            (next_daily anchor_ref l.handoff_hour l.handoff_minute l.location)
            (rw (e, f, g, new_layer) at h)
      | inr g ↦ elim (Bool-cases (str_eq l.rotation "")) [
        | inr k ↦ absurd (cc (rw (e, f, g, k, new_layer) at h))
        | inl k ↦ elim (Bool-cases (is_rotation l.type)) [
          | inl m ↦ absurd (cc (rw (e, f, g, k, m, new_layer) at h))
          | inr m ↦
              let same : done l ≡ done l' = rw (e, f, g, k, m, new_layer) at h in
              ap (λ (x : Layer). x.participants) (sym (done-same same))
        ]
      ]
    ]
  ]
]
  where
    done-same : {a b : Layer} → done a ≡ done b → a ≡ b
    done-same e = cc e

module _ (load : String → Option Zone) where
  build_layer-participants :
      (z : Zone) (cl : Config.Layer) (l : Layer)
      → build_layer load z cl ≡ done l
      → l.participants ≡ cl.participants
  unfolding build_layer
  build_layer-participants z cl l h =
      let (location, _, h1) = bound (or_refuse (layer_zone load z cl.handoff.timezone)) _ h in
      let (clock, _, h2) =
        bound (or_refuse (unless (is_rotation cl.type) (0, 0) (parse_hhmm cl.handoff.time))) _ h1 in
      let (wd, _, h3) =
        bound (or_refuse (unless (str_eq cl.rotation "weekly") 0 (parse_weekday cl.handoff.day))) _
          h2 in
      let (r, _, h4) = bound (or_refuse (new_restriction cl.restriction)) _ h3 in
      let raw : Layer = record {
        name = cl.name;
        type = cl.type;
        participants = cl.participants;
        rotation = cl.rotation;
        handoff_day = wd;
        handoff_hour = clock.0;
        handoff_minute = clock.1;
        location = location;
        restriction = r;
        anchor = 0;
      } in
      new_layer-participants raw l h4

  build_layers-Staffed :
      (Q : String → Type 0) (z : Zone) (cls : List Config.Layer) (ls : List Layer)
      → build_layers load z cls ≡ done ls
      → Staffed Q cls
      → BuiltStaffed Q ls
  unfolding build_layers
  build_layers-Staffed Q z [] ls h s = let same : [] ≡ ls = cc h in subst (BuiltStaffed Q) same tt
  build_layers-Staffed Q z (cl ∷ cls) ls h s =
      let (l, e, h1) = bound (build_layer load z cl) _ h in
      let (rest, f, h2) = bound (build_layers load z cls) _ h1 in
      let same : l ∷ rest ≡ ls = cc h2 in
      subst (BuiltStaffed Q) same (
        subst (All Q) (sym (build_layer-participants z cl l e)) s.0,
        build_layers-Staffed Q z cls rest f s.1,
      )

  pub build_schedule-Staffed :
      (Q : String → Type 0) (cs : Config.Schedule) (s : Build.Schedule)
      → build_schedule load cs ≡ done s
      → (s.name ≡ cs.name) × (Staffed Q cs.layers → BuiltStaffed Q s.layers)
  unfolding build_schedule
  build_schedule-Staffed Q cs s h =
      let (z, _, h1) = bound (or_refuse (load cs.timezone)) _ h in
      let (ls, e, h2) = bound (build_layers load z cs.layers) _ h1 in
      let same : record { name = cs.name; team = cs.team; location = z; layers = ls } ≡ s = cc h2 in
      (
        ap (λ (x : Build.Schedule). x.name) (sym same),
        λ q.
            subst (λ (x : Build.Schedule). BuiltStaffed Q x.layers) same
              (build_layers-Staffed Q z cs.layers ls e q),
      )
