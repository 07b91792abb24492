-- ===== src/Tests/DispatchTests.antt =====
-- The alert dispatcher and the escalation scheduler on a world in memory: no endpoint answers but
-- the console, and EXPIRE fails if it is told to.
use mathlib.Core.List.{Memᴰ}
use inveni_ops.Base.{
  ℕ, ◌≡◌, ◌≢◌, refl, arith, Bool, true, false, not, ◌&&◌, List, [], ◌∷◌, none, some, keep_if,
  if◌then◌else◌, ◌==◌,
}
use inveni_ops.Base.Int.{ℤ, pos, ltb_ℤ}
use inveni_ops.Types.{Ident, opened, p1, cache, same_state}
use inveni_ops.Text.{Text}
use inveni_ops.Retry.{Result, ok, err}
use inveni_ops.Metrics.{create_alert_metrics_recorder}
use inveni_ops.Alerting.Registry.{AlertStrategyRegistry, create_default_alert_strategy_registry}
use inveni_ops.WorkItems.{WorkItem}
use inveni_ops.Dispatch.Framing.{
  created, Notifier, console, over, NotifierRegistryConfig, to_context,
}
use inveni_ops.Dispatch.{AlertWorld, AlertDispatcherOptions, AlertState, dispatch, dispatched_alert}
use inveni_ops.Dispatch.FanOut.{Dispatched, dispatch-Dispatched}
use inveni_ops.Dispatch.Claims.{Lawful}
use inveni_ops.Dispatch.Once.{escalate}

record Outside : Type 0 where
  taken : Ident → Bool
  items : List WorkItem
  expire_fails : Bool

abbrev add_level : Bool → Outside → Ident → Outside × Result Unit Bool
add_level true w i = (w, ok false)
add_level false w i = (record w { taken = λ j. if i == j then true else w.taken j }, ok true)

abbrev send_to : Outside → Notifier → Outside × Result Unit Unit
send_to w console = (w, ok tt)
send_to w (over channel) = (w, err tt)

abbrev listed : ℤ → WorkItem → Bool
listed cutoff item = same_state item.state opened && not (ltb_ℤ cutoff item.first_signal_at)

abbrev memory_world : AlertWorld
memory_world = record {
  W = Outside;
  Error = Unit;
  set_nx_ex = λ w i event seconds. (w, ok true);
  sadd = λ w i level. add_level (w.taken i) w i;
  expire = λ w i seconds. (w, if w.expire_fails then err tt else ok tt);
  send = λ w n alert context. send_to w n;
  write_metric = λ w c b. w;
  find_open_older_than = λ w cutoff. keep_if (listed cutoff) w.items;
  record_escalation_row = λ w i. w;
}

abbrev Taken : Outside → Ident → Type 0
Taken w i = w.taken i ≡ true

add_level-Taken : (b : Bool) (w : Outside) (i : Ident) → w.taken i ≡ b → Taken (add_level b w i).0 i
add_level-Taken true w i e = e
add_level-Taken false w i e = ground arith

add_level_kept : (b : Bool) (w : Outside) (i j : Ident) → Taken w i → Taken (add_level b w j).0 i
add_level_kept true w i j h = h
add_level_kept false w i j h = ground (arith, h)

not_added_twice : (b : Bool) (w : Outside) (i : Ident) → b ≡ true → (add_level b w i).1 ≢ ok true
not_added_twice true w i e f = absurd (cc)
not_added_twice false w i e f = absurd (cc)

send_to_kept : (w : Outside) (i : Ident) (n : Notifier) → Taken w i → Taken (send_to w n).0 i
send_to_kept w i console h = h
send_to_kept w i (over channel) h = h

memory_world-Lawful : Lawful memory_world Taken
memory_world-Lawful = record {
  added = λ w i b e. add_level-Taken (w.taken i) w i refl;
  not_added = λ w i h. not_added_twice (w.taken i) w i h;
  sadd_kept = λ w i j h. add_level_kept (w.taken j) w i j h;
  expire_kept = λ w i j n h. h;
  send_kept = λ w i n a c h. send_to_kept w i n h;
  metric_kept = λ w i c b h. h;
}

abbrev an_item : ℕ → WorkItem
an_item first_signal_at = record {
  id = 7;
  component_id = 30;
  component_type = cache;
  severity = p1;
  state = opened;
  title = 9;
  first_signal_at = pos first_signal_at;
  resolved_at = none;
  closed_at = none;
  signal_count = 4;
  created_at = pos 100;
  updated_at = pos 100;
}

abbrev outside_with : Bool → Outside
outside_with fails = record {
  taken = λ i. false;
  items = an_item 0 ∷ an_item 950000 ∷ [];
  expire_fails = fails;
}

abbrev alert_options : AlertDispatcherOptions
alert_options = record { max_attempts = 2; backoff_delay_ms = 1; suppression_window_seconds = 60 }

abbrev alert_state : Bool → AlertState memory_world alert_options
alert_state fails = record { outside = outside_with fails; metrics = create_alert_metrics_recorder }

abbrev plain_number : ℕ → Text
plain_number n = n ∷ []

abbrev strategies : AlertStrategyRegistry
strategies = create_default_alert_strategy_registry plain_number (λ t. [])

abbrev only_slack : NotifierRegistryConfig
only_slack = record {
  slack_webhook_url = some 1;
  pagerduty_webhook_url = none;
  email_webhook_url = none;
}

dispatch-Dispatched_example :
    Dispatched memory_world alert_options only_slack
      (dispatched_alert memory_world alert_options strategies only_slack plain_number plain_number
        (an_item 0)
        created)
      (to_context plain_number plain_number (an_item 0))
      (alert_state false)
      (outside_with false, ok true)
      (dispatch memory_world alert_options strategies only_slack plain_number plain_number
        (alert_state false)
        (an_item 0)
        created)
dispatch-Dispatched_example =
    dispatch-Dispatched memory_world alert_options strategies only_slack plain_number plain_number
      (alert_state false) (an_item 0) created

abbrev escalated : Bool → AlertState memory_world alert_options × Bool
escalated fails =
    escalate memory_world alert_options Taken memory_world-Lawful strategies only_slack plain_number
      plain_number (alert_state fails) (an_item 0)

abbrev Rows : Outside → WorkItem → Type 0
Rows w item = Memᴰ item w.items
