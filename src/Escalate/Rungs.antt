-- ===== src/Escalate/Rungs.antt =====
-- The flat index over the rungs of all passes (internal/escalate/policy.go), and what a rung leaves
-- behind it.
use kerberon.Base.{
  ℕ, zero, suc, ◌+◌, ◌*◌, ◌/◌, ◌%◌, ◌≤◌, ◌<◌, ltb, ◌≡◌, refl, subst, get_elem?-lt, get_elem?-some,
  inl, inr, ◌⊎◌, ◌↔◌, Bool-cases, true, none, some, arith, length, get_elem?,
}
use native.Mathlib.Nat.{
  div-eq_of_lt, mul-add-div_right, mod-add-div', mul-le-mul_left, mul_comm, mod-lt,
}
use kerberon.Policy.{Policy, Step, step_at, exhausted, total_passes}

flat-div : (n pass k : ℕ) → k < n → (pass * n + k) / n ≡ pass
flat-div n pass k h =
    let small : k / n ≡ 0 = div-eq_of_lt h in
    omega (arith, mul-add-div_right {m = n} (omega arith) pass k, small)

flat-mod : (n pass k : ℕ) → k < n → (pass * n + k) % n ≡ k
flat-mod n pass k h =
    let whole : (pass * n + k) % n + pass * n ≡ pass * n + k =
      subst (λ q. (pass * n + k) % n + q * n ≡ pass * n + k) (flat-div n pass k h)
        (mod-add-div' (pass * n + k) n) in
    omega (arith, whole)

flat-lt : (n passes pass k : ℕ) → k < n → pass < passes → pass * n + k < n * passes
flat-lt n passes pass k h p =
    let le : n * suc pass ≤ n * passes = mul-le-mul_left n p in
    omega (arith, le, mul_comm n pass, mul_comm n passes)

-- The rung `k` of the pass `pass` has the flat index `pass * n + k` and no other: the index counts
-- through the steps of the first pass, then the second, and past the last pass there is none.
pub step_at-rung :
    (p : Policy) (pass k : ℕ) {s : Step}
    → get_elem? p.steps k ≡ some s
    → pass < total_passes p
    → step_at p (pass * length p.steps + k) ≡ some (s, pass)
unfolding step_at
step_at-rung p pass k {s} found few =
    let in_range = get_elem?-lt p.steps k found in
    ground (
      arith,
      flat-lt (length p.steps) (total_passes p) pass k in_range few,
      flat-div (length p.steps) pass k in_range,
      flat-mod (length p.steps) pass k in_range,
      found,
      in_range,
    )

==_cases : (n : ℕ) → (n ≡ 0) ⊎ (0 < n)
==_cases zero = inl refl
==_cases (suc n) = inr (omega arith)

pub in_range-step_at :
    (p : Policy) (index : ℕ)
    → index < length p.steps * total_passes p
    → (r : Step × ℕ) × (step_at p index ≡ some r)
unfolding step_at
in_range-step_at p index h =
    let pos : 0 < length p.steps = elim (==_cases (length p.steps)) [
      | inl z ↦ absurd (
          let none_left : index < 0 * total_passes p =
            subst (λ n. index < n * total_passes p) z h in
          omega arith)
      | inr q ↦ q
    ] in
    let (s, found) = get_elem?-some p.steps (index % length p.steps) (mod-lt index pos) in
    ((s, index / length p.steps), ground (arith, found, pos, h))

pub past-step_at :
    (p : Policy) (index : ℕ) → length p.steps * total_passes p ≤ index → step_at p index ≡ none
unfolding step_at
past-step_at p index h = ground arith

-- A policy is exhausted exactly from the index on that is the number of its steps times the number of
-- its passes; so a policy with a step is not exhausted at 0, and every policy is at some index.
pub exhausted_iff :
    (p : Policy) (index : ℕ)
    → (exhausted p index ≡ true) ↔ (length p.steps * total_passes p ≤ index)
unfolding exhausted
exhausted_iff p index = elim (Bool-cases (ltb index (length p.steps * total_passes p))) [
  | inl e ↦
      let (r, found) = in_range-step_at p index (ground arith) in
      (λ h. absurd (cc (rw found at h)), λ h. absurd (ground arith))
  | inr e ↦ (λ h. ground arith, λ h. rw (past-step_at p index h) refl)
]
