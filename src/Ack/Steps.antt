-- ===== src/Ack/Steps.antt =====
-- Which step a token is taken to be for (`VerifyAny` of internal/ack/ack.go).
use kerberon.Base.{
  ℕ, zero, suc, ◌+◌, ◌≤◌, ◌<◌, ◌≡◌, subst, ltb, leb, ◌&&◌, ◌==◌, ==_iff, true, false, Option, none,
  some, min, Bool-cases, inl, inr, arith,
}
use kerberon.Base.Bytes.{Bytes}
use kerberon.Ack.{hard_limit, verify, verify_from, verify_any}

module _ (sign : Bytes → Bytes) (incident_id : ℕ) (user tok : Bytes) where
  -- No step of a range verifies.
  abbrev pub NoneVerifies : ℕ → ℕ → Type 0
  NoneVerifies from to =
      (j : ℕ) → (leb from j && ltb j to && verify sign incident_id user j tok) ≡ false

  -- The answer is the first of the steps that verifies, or none does.
  abbrev pub FirstIn : ℕ → ℕ → Option ℕ → Type 0
  FirstIn from to none = NoneVerifies from to
  FirstIn from to (some k) =
      (from ≤ k) × (k < to) × (verify sign incident_id user k tok ≡ true) × NoneVerifies from k

  widen-none :
      (from to : ℕ)
      → verify sign incident_id user from tok ≡ false
      → NoneVerifies (suc from) to
      → NoneVerifies from to
  widen-none from to not_it h j = elim (Bool-cases (from == j)) [
    | inl e ↦
        let fails =
          subst (λ j. verify sign incident_id user j tok ≡ false) ((==_iff from j).0 e) not_it in
        ground (arith, fails)
    | inr e ↦ ground (arith, e, h j)
  ]

  widen :
      (from to : ℕ) (o : Option ℕ)
      → verify sign incident_id user from tok ≡ false
      → FirstIn (suc from) to o
      → FirstIn from to o
  widen from to none not_it h = widen-none from to not_it h
  widen from to (some k) not_it (le, lt, this, before) =
      (omega arith, lt, this, widen-none from k not_it before)

  verify_from-FirstIn :
      (left step : ℕ) → FirstIn step (step + left) (verify_from sign left step incident_id user tok)
  unfolding verify_from
  verify_from-FirstIn zero step = λ j. ground arith
  verify_from-FirstIn (suc left) step = elim (Bool-cases (verify sign incident_id user step tok)) [
    | inl e ↦ rw e (omega arith, omega arith, e, λ j. ground arith)
    | inr e ↦
        let rest = verify_from-FirstIn left (suc step) in
        rw e (
          widen step (step + suc left) (verify_from sign left (suc step) incident_id user tok) e (
            subst
              (λ to. FirstIn (suc step) to (verify_from sign left (suc step) incident_id user tok))
              (omega arith) rest))
  ]

-- A link is taken for the first step, from 0 up to the incident's current step and never past 256, whose
-- token it carries; and it is refused exactly where none of these is its own.
pub verify_any_finds_first :
    (sign : Bytes → Bytes) (incident_id : ℕ) (user : Bytes) (max_step : ℕ) (tok : Bytes)
    → FirstIn sign incident_id user tok 0
        (suc (min max_step hard_limit))
        (verify_any sign incident_id user max_step tok)
unfolding verify_any
verify_any_finds_first sign incident_id user max_step tok =
    subst
      (λ to. FirstIn sign incident_id user tok 0 to (verify_any sign incident_id user max_step tok))
      (omega arith)
      (verify_from-FirstIn sign incident_id user tok (suc (min max_step hard_limit)) 0)
