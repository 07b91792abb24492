-- ===== src/Dispatch/FanOut.antt =====
-- Whom AlertDispatcher of backend/src/services/alerting/dispatcher.ts sends an alert to, and what
-- becomes of each delivery.
use inveni_ops.Base.{
  ℕ, ◌+◌, ◌≡◌, refl, inl, inr, ap, arith, Bool, true, false, List, [], ◌∷◌, Option, none, some,
  if◌then◌else◌, ◌==◌, ==_iff, Option-cases,
}
use inveni_ops.Types.{Ident}
use inveni_ops.Text.{Text}
use inveni_ops.Retry.{Result, ok, err, RetryError, retry}
use inveni_ops.Metrics.{
  AlertMetricsRecorder, AlertChannelCounts, record_delivery_success, record_delivery_failure,
}
use inveni_ops.Alerting.{NotificationChannel, pagerduty, slack, email, Alert, AlertContext}
use inveni_ops.Alerting.Registry.{AlertStrategyRegistry}
use inveni_ops.WorkItems.{WorkItem}
use inveni_ops.Dispatch.Framing.{
  AlertEventType, Notifier, console, over, notifier_name, NotifierRegistryConfig, resolve_notifier,
  configured, targets, to_context,
}
use inveni_ops.Dispatch.{
  AlertWorld, AlertDispatcherOptions, AlertState, send_via, fan_out, sent, dispatch, when_claimed,
  dispatched_alert,
}

abbrev pub delivered_to : AlertMetricsRecorder → Ident → ℕ
delivered_to m c = (m.counts c).delivered

abbrev pub failed_to : AlertMetricsRecorder → Ident → ℕ
failed_to m c = (m.counts c).failed

abbrev one_if_named : Ident → Ident → ℕ
one_if_named n c = if n == c then 1 else 0

-- What a recorder holds after one more delivery over the channel n has succeeded, or failed.
abbrev pub OneDelivered : Ident → AlertMetricsRecorder → AlertMetricsRecorder → Type 0
OneDelivered n m m' =
    (c : Ident)
    → (delivered_to m' c ≡ delivered_to m c + one_if_named n c) × (failed_to m' c ≡ failed_to m c)

abbrev pub OneFailed : Ident → AlertMetricsRecorder → AlertMetricsRecorder → Type 0
OneFailed n m m' =
    (c : Ident)
    → (delivered_to m' c ≡ delivered_to m c) × (failed_to m' c ≡ failed_to m c + one_if_named n c)

counted_delivery :
    (b : Bool) (x y : AlertChannelCounts)
    → (b ≡ true → x ≡ y)
    → ((if b then record x { delivered = x.delivered + 1 } else y).delivered
        ≡ y.delivered + (if b then 1 else 0))
      × ((if b then record x { delivered = x.delivered + 1 } else y).failed ≡ y.failed)
counted_delivery true x y same =
    (ap (λ (k : AlertChannelCounts). k.delivered + 1) (same refl), ap (λ k. k.failed) (same refl))
counted_delivery false x y same = (omega arith, refl)

counted_failure :
    (b : Bool) (x y : AlertChannelCounts)
    → (b ≡ true → x ≡ y)
    → ((if b then record x { failed = x.failed + 1 } else y).delivered ≡ y.delivered)
      × ((if b then record x { failed = x.failed + 1 } else y).failed
          ≡ y.failed + (if b then 1 else 0))
counted_failure true x y same =
    (ap (λ k. k.delivered) (same refl), ap (λ (k : AlertChannelCounts). k.failed + 1) (same refl))
counted_failure false x y same = (refl, omega arith)

success-OneDelivered :
    (m : AlertMetricsRecorder) (n : Ident) → OneDelivered n m (record_delivery_success m n)
success-OneDelivered m n c =
    counted_delivery (n == c) (m.counts n) (m.counts c) (λ e. ap m.counts ((==_iff n c).0 e))

failure-OneFailed :
    (m : AlertMetricsRecorder) (n : Ident) → OneFailed n m (record_delivery_failure m n)
failure-OneFailed m n c =
    counted_failure (n == c) (m.counts n) (m.counts c) (λ e. ap m.counts ((==_iff n c).0 e))

-- The URL that is set for a channel.
abbrev pub url_of : NotifierRegistryConfig → NotificationChannel → Option Ident
url_of c slack = c.slack_webhook_url
url_of c pagerduty = c.pagerduty_webhook_url
url_of c email = c.email_webhook_url

-- The notifiers of the channels that have a URL, in the order of the channels.
pub data Reached (c : NotifierRegistryConfig)
    : List NotificationChannel → List Notifier → Type 0 where
  no_more : Reached c [] []
  unset :
      (channel : NotificationChannel) (channels : List NotificationChannel) (ns : List Notifier)
      → url_of c channel ≡ none
      → Reached c channels ns
      → Reached c (channel ∷ channels) ns
  set :
      (channel : NotificationChannel) (channels : List NotificationChannel) (ns : List Notifier)
      (url : Ident)
      → url_of c channel ≡ some url
      → Reached c channels ns
      → Reached c (channel ∷ channels) (over channel ∷ ns)

resolve_notifier-none :
    (c : NotifierRegistryConfig) (channel : NotificationChannel)
    → url_of c channel ≡ none
    → resolve_notifier c channel ≡ none
resolve_notifier-none c slack e = rw e refl
resolve_notifier-none c pagerduty e = rw e refl
resolve_notifier-none c email e = rw e refl

resolve_notifier-some :
    (c : NotifierRegistryConfig) (channel : NotificationChannel) (url : Ident)
    → url_of c channel ≡ some url
    → resolve_notifier c channel ≡ some (over channel)
resolve_notifier-some c slack url e = rw e refl
resolve_notifier-some c pagerduty url e = rw e refl
resolve_notifier-some c email url e = rw e refl

configured-Reached :
    (c : NotifierRegistryConfig) (channels : List NotificationChannel)
    → Reached c channels (configured c channels)
configured-Reached c [] = no_more
configured-Reached c (channel ∷ channels) = elim (Option-cases (url_of c channel)) [
  | inl e ↦
      rw (configured, resolve_notifier-none c channel e)
        (unset channel channels (configured c channels) e (configured-Reached c channels))
  | inr (url, e) ↦
      rw (configured, resolve_notifier-some c channel url e)
        (set channel channels (configured c channels) url e (configured-Reached c channels))
]

module _ (world : AlertWorld) (o : AlertDispatcherOptions) where
  open world use {W, Error, set_nx_ex, send, write_metric}

  -- The sends of one delivery: as many as the options allow, whatever the error.
  abbrev pub tries :
      Alert → AlertContext → Notifier → W → W × Result (RetryError Error) Unit × List ℕ
  tries alert context n w =
      retry
        (record {
          attempts = o.max_attempts;
          base_delay_ms = o.backoff_delay_ms;
          max_delay_ms = none;
          should_retry = λ e. true;
        })
        (λ v. send v n alert context) w

  -- One delivery: its sends succeed or are given up, and that is counted and written once.
  pub data Delivery (alert : Alert) (context : AlertContext) (n : Notifier)
      (s s' : AlertState world o) : Type 0 where
    delivery :
        (w : W) (delays : List ℕ)
        → tries alert context n s.outside ≡ (w, ok tt, delays)
        → s'.outside ≡ write_metric w (notifier_name n) true
        → OneDelivered (notifier_name n) s.metrics s'.metrics
        → Delivery alert context n s s'
    given_up :
        (w : W) (e : RetryError Error) (delays : List ℕ)
        → tries alert context n s.outside ≡ (w, err e, delays)
        → s'.outside ≡ write_metric w (notifier_name n) false
        → OneFailed (notifier_name n) s.metrics s'.metrics
        → Delivery alert context n s s'

  -- A delivery to each of the notifiers.
  pub data Deliveries (alert : Alert) (context : AlertContext)
      : List Notifier → AlertState world o → AlertState world o → Type 0 where
    all_sent : (s : AlertState world o) → Deliveries alert context [] s s
    one_more :
        (n : Notifier) (ns : List Notifier) (s t s' : AlertState world o)
        → Delivery alert context n s t
        → Deliveries alert context ns t s'
        → Deliveries alert context (n ∷ ns) s s'

  sent-Delivery :
      (alert : Alert) (context : AlertContext) (n : Notifier) (s : AlertState world o)
      (r : W × Result (RetryError Error) Unit × List ℕ)
      → tries alert context n s.outside ≡ r
      → Delivery alert context n s (sent world o n s.metrics r)
  sent-Delivery alert context n s (w, ok tt, delays) e =
      delivery w delays e refl (success-OneDelivered s.metrics (notifier_name n))
  sent-Delivery alert context n s (w, err x, delays) e =
      given_up w x delays e refl (failure-OneFailed s.metrics (notifier_name n))

  send_via-Delivery :
      (alert : Alert) (context : AlertContext) (s : AlertState world o) (n : Notifier)
      → Delivery alert context n s (send_via world o alert context s n)
  unfolding send_via
  send_via-Delivery alert context s n =
      sent-Delivery alert context n s (tries alert context n s.outside) refl

  fan_out-Deliveries :
      (alert : Alert) (context : AlertContext) (ns : List Notifier) (s : AlertState world o)
      → Deliveries alert context ns s (fan_out world o alert context ns s)
  unfolding fan_out
  fan_out-Deliveries alert context [] s = all_sent s
  fan_out-Deliveries alert context (n ∷ ns) s =
      one_more n ns s (send_via world o alert context s n) _ (send_via-Delivery alert context s n)
        (fan_out-Deliveries alert context ns (send_via world o alert context s n))

  -- How a dispatch ends that has asked Redis for the claim.
  pub data Dispatched (c : NotifierRegistryConfig) (alert : Alert) (context : AlertContext)
      (s : AlertState world o) : W × Result Error Bool → AlertState world o → Type 0 where
    claimed :
        (w : W) (ns : List Notifier) (s' : AlertState world o)
        → Reached c alert.channels ns
        → Deliveries alert context (console ∷ ns) (record s { outside = w }) s'
        → Dispatched c alert context s (w, ok true) s'
    suppressed : (w : W) → Dispatched c alert context s (w, ok false) (record s { outside = w })
    redis_failed :
        (w : W) (e : Error) → Dispatched c alert context s (w, err e) (record s { outside = w })

  claimed-Dispatched :
      (c : NotifierRegistryConfig) (alert : Alert) (context : AlertContext) (s : AlertState world o)
      (r : W × Result Error Bool)
      → Dispatched c alert context s r
          (when_claimed world o s r (fan_out world o alert context (targets c alert))).0
  claimed-Dispatched c alert context s (w, ok true) =
      claimed w (configured c alert.channels) _ (configured-Reached c alert.channels)
        (fan_out-Deliveries alert context (targets c alert) (record s { outside = w }))
  claimed-Dispatched c alert context s (w, ok false) = suppressed w
  claimed-Dispatched c alert context s (w, err e) = redis_failed w e

  module _ (strategies : AlertStrategyRegistry) (notifiers : NotifierRegistryConfig)
      (ident_text : Ident → Text) (number_text : ℕ → Text) where
    -- A dispatch always ends. If Redis grants the claim of the event, the alert is sent to the
    -- console and to each channel of the alert that has a URL, in this order and to no other: each
    -- delivery is tried as often as the options allow, and is counted and written once, as delivered
    -- or as failed, whatever becomes of the others. If the claim is taken or Redis fails, nothing is
    -- sent and no counter moves.
    pub dispatch-Dispatched :
        (s : AlertState world o) (item : WorkItem) (event : AlertEventType)
        → Dispatched notifiers
            (dispatched_alert world o strategies notifiers ident_text number_text item event)
            (to_context ident_text number_text item)
            s
            (set_nx_ex s.outside item.id event o.suppression_window_seconds)
            (dispatch world o strategies notifiers ident_text number_text s item event)
    unfolding dispatch
    dispatch-Dispatched s item event =
        claimed-Dispatched notifiers
          (dispatched_alert world o strategies notifiers ident_text number_text item event)
          (to_context ident_text number_text item) s
          (set_nx_ex s.outside item.id event o.suppression_window_seconds)
