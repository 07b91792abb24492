-- ===== src/Dispatch.antt =====
-- backend/src/services/alerting: suppression.ts and dispatcher.ts. Redis, the endpoints that the notifiers post to, and the database are the
-- record `AlertWorld`. The sends that Promise.all starts together are run one after another: none
-- reads what another has written. Logging has no effect on the state.
pub mod Framing
pub mod Scheduler
pub mod FanOut
pub mod Claims
pub mod Once
pub mod Overdue
use inveni_ops.Base.{ℕ, Bool, true, false, List, [], ◌∷◌, ◌++◌, Option, none, some, if◌then◌else◌}
use inveni_ops.Base.Int.{ℤ, pos, ◌+ℤ◌, ◌-ℤ◌, ltb_ℤ}
use inveni_ops.Types.{
  Ident, ComponentType, api, mcp_host, cache, queue, rdbms, nosql, WorkItemStateName, opened,
  investigating, resolved, closed, p0,
}
use inveni_ops.Text.{Text, units}
use inveni_ops.Retry.{Result, ok, err, RetryError, retry}
use inveni_ops.Metrics.{
  AlertMetricsRecorder, record_delivery_success, record_delivery_failure, record_escalation,
}
use inveni_ops.Alerting.{
  NotificationChannel, pagerduty, slack, email, AlertContext, Alert, AlertStrategy,
  get_escalation_policy, reconcile_severity,
}
use inveni_ops.Alerting.Registry.{AlertStrategyRegistry, resolve}
use inveni_ops.WorkItems.{WorkItem}
use Framing.{
  AlertEventType, created, Notifier, notifier_name, NotifierRegistryConfig, to_context,
  with_event_framing, targets, component_type_text,
}

-- Redis, the endpoints and the database, over one state W of them.
pub record AlertWorld : Type 1 where
  pub W : Type 0
  pub Error : Type 0
  -- SET NX EX on the key of an item and an event: whether the reply is OK.
  pub set_nx_ex : W → Ident → AlertEventType → ℕ → W × Result Error Bool
  -- SADD on the key of an item: whether the level was added; and EXPIRE on that key.
  pub sadd : W → Ident → ℕ → W × Result Error Bool
  pub expire : W → Ident → ℕ → W × Result Error Unit
  pub send : W → Notifier → Alert → AlertContext → W × Result Error Unit
  -- recordAlertDispatches, whose failures are swallowed: a channel, and whether it was delivered.
  pub write_metric : W → Ident → Bool → W
  -- findOpenWorkItemsOlderThan and recordEscalation.
  pub find_open_older_than : W → ℤ → List WorkItem
  pub record_escalation_row : W → Ident → W

pub record AlertDispatcherOptions : Type 0 where
  pub max_attempts : ℕ
  pub backoff_delay_ms : ℕ
  pub suppression_window_seconds : ℕ

abbrev pub escalation_level : ℕ
escalation_level = 1

module _ (world : AlertWorld) (o : AlertDispatcherOptions) where
  open world use {W, Error, set_nx_ex, sadd, expire, send, write_metric}

  pub record AlertState : Type 0 where
    pub outside : W
    pub metrics : AlertMetricsRecorder

  abbrev sent :
      Notifier → AlertMetricsRecorder → W × Result (RetryError Error) Unit × List ℕ → AlertState
  sent n m (w, ok u, delays) = record {
    outside = write_metric w (notifier_name n) true;
    metrics = record_delivery_success m (notifier_name n);
  }
  sent n m (w, err e, delays) = record {
    outside = write_metric w (notifier_name n) false;
    metrics = record_delivery_failure m (notifier_name n);
  }

  unfoldable pub send_via : Alert → AlertContext → AlertState → Notifier → AlertState
  send_via alert context s n = sent n s.metrics (
      retry
        (record {
          attempts = o.max_attempts;
          base_delay_ms = o.backoff_delay_ms;
          max_delay_ms = none;
          should_retry = λ e. true;
        })
        (λ w. send w n alert context) s.outside)

  unfoldable pub fan_out : Alert → AlertContext → List Notifier → AlertState → AlertState
  unfolding send_via
  fan_out alert context [] s = s
  fan_out alert context (n ∷ ns) s = fan_out alert context ns (send_via alert context s n)

  -- claimEscalationLevel: what SADD answers counts once EXPIRE has run.
  abbrev after_expire : Bool → W × Result Error Unit → W × Result Error Bool
  after_expire added (w, ok u) = (w, ok added)
  after_expire added (w, err e) = (w, err e)

  abbrev after_sadd : Ident → W × Result Error Bool → W × Result Error Bool
  after_sadd i (w, ok added) = after_expire added (expire w i o.suppression_window_seconds)
  after_sadd i (w, err e) = (w, err e)

  unfoldable pub claim_escalation_level : W → Ident → ℕ → W × Result Error Bool
  claim_escalation_level w i level = after_sadd i (sadd w i level)

  -- Only a claim that was granted is followed by the rest; a thrown error is logged.
  abbrev when_claimed :
      AlertState → W × Result Error Bool → (AlertState → AlertState) → AlertState × Bool
  when_claimed s (w, ok true) rest = (rest (record s { outside = w }), true)
  when_claimed s (w, ok false) rest = (record s { outside = w }, false)
  when_claimed s (w, err e) rest = (record s { outside = w }, false)

  module _ (strategies : AlertStrategyRegistry) (notifiers : NotifierRegistryConfig)
      (ident_text : Ident → Text) (number_text : ℕ → Text) where
    abbrev pub strategy_of : WorkItem → AlertStrategy
    strategy_of item = resolve strategies (component_type_text item.component_type)

    abbrev pub dispatched_alert : WorkItem → AlertEventType → Alert
    dispatched_alert item event =
        with_event_framing ident_text number_text
          ((strategy_of item).build_alert (to_context ident_text number_text item)) event item

    unfoldable pub dispatch : AlertState → WorkItem → AlertEventType → AlertState
    unfolding fan_out with_event_framing
    dispatch s item event =
        (when_claimed s (set_nx_ex s.outside item.id event o.suppression_window_seconds) (
          fan_out (dispatched_alert item event) (to_context ident_text number_text item)
            (targets notifiers (dispatched_alert item event)))).0

    abbrev pub escalation_alert : WorkItem → Alert
    escalation_alert item =
        let base = (strategy_of item).build_alert (to_context ident_text number_text item) in
        with_event_framing ident_text number_text
          (record base { channels = (get_escalation_policy base.severity).escalate_to ∷ [] })
          created item

    -- recordEscalation of the counters, after the sends.
    abbrev count_escalation : AlertState → AlertState
    count_escalation s = record s { metrics = record_escalation s.metrics }

    unfoldable pub dispatch_escalation : AlertState → WorkItem → AlertState × Bool
    unfolding fan_out with_event_framing claim_escalation_level
    dispatch_escalation s item =
        when_claimed s (claim_escalation_level s.outside item.id escalation_level) (λ t.
          count_escalation (
            fan_out (escalation_alert item) (to_context ident_text number_text item)
              (targets notifiers (escalation_alert item)) t))
