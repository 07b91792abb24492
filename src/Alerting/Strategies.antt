-- ===== src/Alerting/Strategies.antt =====
-- backend/src/domain/alerting/strategies: the six strategies and the default. How the language
-- writes a number and an ISO date into a template is a parameter.
use inveni_ops.Base.{ℕ, [], ◌∷◌, ◌++◌}
use inveni_ops.Base.Int.{ℤ}
use inveni_ops.Types.{p0, p1, p2}
use inveni_ops.Text.{Text, units}
use inveni_ops.Alerting.{
  pagerduty, slack, email, AlertContext, AlertStrategy, reconcile_severity, get_escalation_policy,
  severity_text,
}

module _ (number_text : ℕ → Text) (to_iso_string : ℤ → Text) where
  -- The beginning of every body.
  abbrev pub opening : AlertContext → Text
  opening context =
      number_text context.signal_count
      ++ (units " signal(s) since " ++ to_iso_string context.first_signal_at)

  unfoldable pub rdbms_alert_strategy : AlertStrategy
  rdbms_alert_strategy = record {
    component_type = units "RDBMS";
    severity_floor = p0;
    build_alert = λ context.
        let severity = reconcile_severity p0 context.reported_severity in
        record {
          severity = severity;
          channels = pagerduty ∷ slack ∷ [];
          escalation = get_escalation_policy severity;
          title =
              units "["
              ++ (severity_text severity ++ (units "] RDBMS failure on " ++ context.component_id));
          body =
              opening context
              ++ (units ". The relational store is the source of truth for work items and RCAs "
                  ++ units "— treat as an active, system-wide outage until confirmed otherwise.");
        };
  }

  unfoldable pub nosql_alert_strategy : AlertStrategy
  nosql_alert_strategy = record {
    component_type = units "NOSQL";
    severity_floor = p1;
    build_alert = λ context.
        let severity = reconcile_severity p1 context.reported_severity in
        record {
          severity = severity;
          channels = pagerduty ∷ slack ∷ [];
          escalation = get_escalation_policy severity;
          title =
              units "["
              ++ (severity_text severity
                  ++ (units "] Signal store failure on " ++ context.component_id));
          body =
              opening context
              ++ (units ". Raw signal persistence is degraded or down — incident detail and "
                  ++ (units "historical audit trail are at risk even if ingestion itself keeps "
                      ++ units "accepting traffic."));
        };
  }

  unfoldable pub cache_alert_strategy : AlertStrategy
  cache_alert_strategy = record {
    component_type = units "CACHE";
    severity_floor = p2;
    build_alert = λ context.
        let severity = reconcile_severity p2 context.reported_severity in
        record {
          severity = severity;
          channels = slack ∷ [];
          escalation = get_escalation_policy severity;
          title =
              units "["
              ++ (severity_text severity ++ (units "] Cache failure on " ++ context.component_id));
          body =
              opening context
              ++ (units ". Dashboard reads will fall back to Postgres and run slower, but data "
                  ++ units "is not at risk.");
        };
  }

  unfoldable pub api_alert_strategy : AlertStrategy
  api_alert_strategy = record {
    component_type = units "API";
    severity_floor = p1;
    build_alert = λ context.
        let severity = reconcile_severity p1 context.reported_severity in
        record {
          severity = severity;
          channels = pagerduty ∷ slack ∷ [];
          escalation = get_escalation_policy severity;
          title =
              units "["
              ++ (severity_text severity ++ (units "] API failure on " ++ context.component_id));
          body =
              opening context
              ++ (units ". Customer-facing traffic is likely affected — verify request success "
                  ++ units "rate and latency immediately.");
        };
  }

  unfoldable pub mcp_host_alert_strategy : AlertStrategy
  mcp_host_alert_strategy = record {
    component_type = units "MCP_HOST";
    severity_floor = p1;
    build_alert = λ context.
        let severity = reconcile_severity p1 context.reported_severity in
        record {
          severity = severity;
          channels = slack ∷ email ∷ [];
          escalation = get_escalation_policy severity;
          title =
              units "["
              ++ (severity_text severity
                  ++ (units "] MCP host failure on " ++ context.component_id));
          body =
              opening context
              ++ (units ". Internal tooling/model-context host is degraded — check whether "
                  ++ units "dependent automations are affected.");
        };
  }

  unfoldable pub queue_alert_strategy : AlertStrategy
  queue_alert_strategy = record {
    component_type = units "QUEUE";
    severity_floor = p1;
    build_alert = λ context.
        let severity = reconcile_severity p1 context.reported_severity in
        record {
          severity = severity;
          channels = slack ∷ [];
          escalation = get_escalation_policy severity;
          title =
              units "["
              ++ (severity_text severity ++ (units "] Queue failure on " ++ context.component_id));
          body =
              opening context
              ++ (units ". Async processing is degraded or backed up — work items may lag "
                  ++ units "behind ingestion until this clears.");
        };
  }

  unfoldable pub default_alert_strategy : AlertStrategy
  default_alert_strategy = record {
    component_type = units "DEFAULT";
    severity_floor = p2;
    build_alert = λ context.
        let severity = reconcile_severity p2 context.reported_severity in
        record {
          severity = severity;
          channels = email ∷ [];
          escalation = get_escalation_policy severity;
          title =
              units "["
              ++ (severity_text severity
                  ++ (units "] Failure on "
                      ++ (context.component_id
                          ++ (units " (" ++ (context.component_type ++ units ")")))));
          body =
              opening context
              ++ (units ". No dedicated alert policy exists for component type \""
                  ++ (context.component_type
                      ++ (units "\" — using the default policy. Consider registering a specific "
                          ++ units "strategy for it.")));
        };
  }
