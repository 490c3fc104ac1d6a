-- ===== src/Policy/Configured.antt =====
-- `PolicyFromConfig` of internal/escalate/policy.go: a configured policy as an incident carries it.
use kerberon.Base.{ℕ, String, str_eq, map, if◌then◌else◌}
use kerberon.Base.Int.{ℤ, pos, negsuc}
use kerberon.Core.Enums.{Channel, ntfy, telegram, email, webhook, sms, voice, other}
use kerberon.Policy.{Policy, Step}
use kerberon.Config.Model.{EscalationPolicy}
use kerberon.Config.Model as Config

-- A channel of a step by its text.
unfoldable pub channel_of : String → Channel
channel_of s =
    if str_eq s "ntfy"
    then ntfy
    else if str_eq s "telegram"
    then telegram
    else if str_eq s "email"
    then email
    else if str_eq s "webhook"
    then webhook
    else if str_eq s "sms"
    then sms
    else if str_eq s "voice"
    then voice
    else other s

-- A negative number of passes is only ever compared with one, as 0 is.
abbrev at_least_zero : ℤ → ℕ
at_least_zero (pos n) = n
at_least_zero (negsuc _) = 0

unfoldable pub step_from_config : Config.Step → Step
unfolding channel_of
step_from_config s = record {
  delay = s.delay;
  targets = s.targets;
  channels = map channel_of s.channels;
}

unfoldable pub policy_from_config : EscalationPolicy → Policy
unfolding step_from_config
policy_from_config c = record {
  name = c.name;
  repeat = at_least_zero c.repeat;
  ack_timeout = c.ack_timeout;
  steps = map step_from_config c.steps;
}
