-- ===== src/Policy.antt =====
-- Escalation policies (internal/escalate/policy.go): a list of steps that runs for a number of
-- passes, and the snapshot of one that an incident carries.
pub mod Configured
use kerberon.Base.{
  ℕ, ◌*◌, ◌/◌, ◌%◌, ◌==◌, ltb, if◌then◌else◌, length, get_elem?, String, Bool, true, false, Option,
  none, some, List,
}
use kerberon.Core.Time.{Duration}
use kerberon.Core.Enums.{TargetKind, Channel}

-- Who a step pages.
pub record Target : Type 0 where
  pub kind : TargetKind
  pub name : String

-- One rung. The delay runs from the firing of the rung before.
pub record Step : Type 0 where
  pub delay : Duration
  pub targets : List Target
  pub channels : List Channel

pub record Policy : Type 0 where
  pub name : String
  pub repeat : ℕ
  pub ack_timeout : Duration
  pub steps : List Step

-- The text in an incident's `policy_snapshot`: empty, not a policy, or the encoding of one.
pub data Snapshot : Type 0 where
  empty corrupt : Snapshot
  encoded : Policy → Snapshot

unfoldable pub encode : Policy → Snapshot
encode p = encoded p

-- `none` for each of the three errors: no snapshot, one that does not decode, one with no steps.
unfoldable pub decode_policy : Snapshot → Option Policy
decode_policy empty = none
decode_policy corrupt = none
decode_policy (encoded p) = if length p.steps == 0 then none else some p

unfoldable pub total_passes : Policy → ℕ
total_passes p = if ltb p.repeat 1 then 1 else p.repeat

abbrev pub with_pass : ℕ → Option Step → Option (Step × ℕ)
with_pass pass none = none
with_pass pass (some s) = some (s, pass)

-- The step at a flat index over all the passes, and the pass that it belongs to.
unfoldable pub step_at : Policy → ℕ → Option (Step × ℕ)
unfolding total_passes
step_at p index =
    let n = length p.steps in
    if n == 0
    then none
    else if ltb index (n * total_passes p)
    then with_pass (index / n) (get_elem? p.steps (index % n))
    else none

abbrev is_none {ℓ} : {A : Type ℓ} → Option A → Bool
is_none none = true
is_none (some _) = false

unfoldable pub exhausted : Policy → ℕ → Bool
unfolding step_at
exhausted p index = is_none (step_at p index)
