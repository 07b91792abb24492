-- ===== src/Tests/AlertTests.antt =====
-- backend/src/domain/alerting and backend/src/utils/retry.ts at concrete inputs.
use inveni_ops.Base.{
  ℕ, ◌≤◌, ◌≡◌, ◌≢◌, refl, arith, [], ◌∷◌, ◌++◌, replicate, none, if◌then◌else◌, ◌==◌,
}
use inveni_ops.Base.Int.{ℤ, pos}
use inveni_ops.Types.{p3, severity_rank}
use inveni_ops.Text.{Text, units, same_text}
use inveni_ops.Alerting.{AlertContext, get_escalation_policy}
use inveni_ops.Alerting.Strategies.{cache_alert_strategy}
use inveni_ops.Alerting.Registry.{resolve, register, create_default_alert_strategy_registry}
use inveni_ops.Alerting.Laws.{resolve-register, default_registry_alert}
use inveni_ops.Retry.{ok, err, RetryOptions, retry}
use inveni_ops.Retry.Laws.{scripted, retry_recovers}

-- Numbers and dates written as one code unit.
abbrev one_unit : ℕ → Text
one_unit n = n ∷ []

abbrev no_date : ℤ → Text
no_date t = []

abbrev alert_context : AlertContext
alert_context = record {
  component_id = units "cache-eu-1";
  component_type = units "CACHE";
  reported_severity = p3;
  signal_count = 4;
  first_signal_at = pos 100;
}

resolve-register_example :
    resolve
      (register
        (create_default_alert_strategy_registry one_unit no_date)
        (cache_alert_strategy one_unit no_date))
      (units "API")
    ≡ (if same_text (cache_alert_strategy one_unit no_date).component_type (units "API")
        then cache_alert_strategy one_unit no_date
        else resolve (create_default_alert_strategy_registry one_unit no_date) (units "API"))
resolve-register_example =
    resolve-register (create_default_alert_strategy_registry one_unit no_date)
      (cache_alert_strategy one_unit no_date) (units "API")

default_registry_alert_example :
    let r = create_default_alert_strategy_registry one_unit no_date in
    let alert = (resolve r (units "CACHE")).build_alert alert_context in
    (severity_rank alert.severity ≤ 3)
    × (alert.escalation ≡ get_escalation_policy alert.severity)
    × (alert.channels ≢ [])
default_registry_alert_example =
    default_registry_alert one_unit no_date (units "CACHE") alert_context

-- Three attempts; the error 1 is transient.
abbrev postgres_options : RetryOptions ℕ
postgres_options = record {
  attempts = 3;
  base_delay_ms = 50;
  max_delay_ms = none;
  should_retry = λ e. e == 1;
}

retry_recovers_example :
    retry {A = ℕ} postgres_options (scripted 0) (replicate 2 (err 1) ++ ok 9 ∷ [])
    ≡ ([], ok 9, 50 ∷ 100 ∷ [])
retry_recovers_example = retry_recovers postgres_options 0 1 refl 2 9 [] (omega arith)
