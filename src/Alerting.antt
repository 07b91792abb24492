-- ===== src/Alerting.antt =====
-- backend/src/domain/alerting: types.ts, severity.ts and escalation.ts. The severities and the
-- known component types are in Types.antt; a registry's component type is any text.
pub mod Strategies
pub mod Registry
pub mod Laws
use inveni_ops.Base.{ℕ, ◌*◌, Bool, List, if◌then◌else◌, ltb}
use inveni_ops.Base.Int.{ℤ}
use inveni_ops.Types.{Severity, p0, p1, p2, p3, severity_rank}
use inveni_ops.Text.{Text, units}

pub data NotificationChannel : Type 0 where
  pagerduty slack email : NotificationChannel

pub record AlertContext : Type 0 where
  pub component_id : Text
  pub component_type : Text
  pub reported_severity : Severity
  pub signal_count : ℕ
  pub first_signal_at : ℤ

pub record EscalationPolicy : Type 0 where
  pub acknowledge_within_ms : ℕ
  pub escalate_to : NotificationChannel

pub record Alert : Type 0 where
  pub severity : Severity
  pub channels : List NotificationChannel
  pub escalation : EscalationPolicy
  pub title : Text
  pub body : Text

pub record AlertStrategy : Type 0 where
  pub component_type : Text
  pub severity_floor : Severity
  pub build_alert : AlertContext → Alert

unfoldable pub reconcile_severity : Severity → Severity → Severity
reconcile_severity floor reported =
    if ltb (severity_rank reported) (severity_rank floor) then reported else floor

abbrev policy : ℕ → NotificationChannel → EscalationPolicy
policy ms channel = record { acknowledge_within_ms = ms; escalate_to = channel }

unfoldable pub get_escalation_policy : Severity → EscalationPolicy
get_escalation_policy p0 = policy (5 * 60_000) pagerduty
get_escalation_policy p1 = policy (15 * 60_000) slack
get_escalation_policy p2 = policy (60 * 60_000) email
get_escalation_policy p3 = policy (4 * 60 * 60_000) email

-- A severity in a template string.
abbrev pub severity_text : Severity → Text
severity_text p0 = units "P0"
severity_text p1 = units "P1"
severity_text p2 = units "P2"
severity_text p3 = units "P3"
