-- ===== src/Dispatch/Framing.antt =====
-- What an alert says and where it goes: withEventFraming and the targets of fanOut in
-- backend/src/services/alerting/dispatcher.ts, and notifierRegistry.ts.
use inveni_ops.Base.{ℕ, List, [], ◌∷◌, ◌++◌, Option, none, some}
use inveni_ops.Types.{
  Ident, ComponentType, api, mcp_host, cache, queue, rdbms, nosql, WorkItemStateName, opened,
  investigating, resolved, closed,
}
use inveni_ops.Text.{Text, units}
use inveni_ops.Alerting.{NotificationChannel, pagerduty, slack, email, AlertContext, Alert}
use inveni_ops.WorkItems.{WorkItem}

pub data AlertEventType : Type 0 where
  created : AlertEventType
  entered : WorkItemStateName → AlertEventType

-- ConsoleNotifier, and the notifier of a channel.
pub data Notifier : Type 0 where
  console : Notifier
  over : NotificationChannel → Notifier

-- `name`, as the counters know it.
abbrev pub notifier_name : Notifier → Ident
notifier_name console = 0
notifier_name (over pagerduty) = 1
notifier_name (over slack) = 2
notifier_name (over email) = 3

pub record NotifierRegistryConfig : Type 0 where
  pub slack_webhook_url : Option Ident
  pub pagerduty_webhook_url : Option Ident
  pub email_webhook_url : Option Ident

abbrev pub if_configured : Option Ident → Notifier → Option Notifier
if_configured none n = none
if_configured (some url) n = some n

-- createNotifierRegistry and `resolve`: the notifier of a channel, if its URL is set.
abbrev pub resolve_notifier : NotifierRegistryConfig → NotificationChannel → Option Notifier
resolve_notifier c slack = if_configured c.slack_webhook_url (over slack)
resolve_notifier c pagerduty = if_configured c.pagerduty_webhook_url (over pagerduty)
resolve_notifier c email = if_configured c.email_webhook_url (over email)

abbrev pub event_label : AlertEventType → Text
event_label created = units "New incident opened"
event_label (entered opened) = units "Incident reopened"
event_label (entered investigating) = units "Incident moved to INVESTIGATING"
event_label (entered resolved) = units "Incident marked RESOLVED"
event_label (entered closed) = units "Incident CLOSED"

abbrev pub component_type_text : ComponentType → Text
component_type_text api = units "API"
component_type_text mcp_host = units "MCP_HOST"
component_type_text cache = units "CACHE"
component_type_text queue = units "QUEUE"
component_type_text rdbms = units "RDBMS"
component_type_text nosql = units "NOSQL"

-- The text of an identifier, and of a number in a template.
module _ (ident_text : Ident → Text) (number_text : ℕ → Text) where
  abbrev pub to_context : WorkItem → AlertContext
  to_context w = record {
    component_id = ident_text w.component_id;
    component_type = component_type_text w.component_type;
    reported_severity = w.severity;
    signal_count = w.signal_count;
    first_signal_at = w.first_signal_at;
  }

  unfoldable pub with_event_framing : Alert → AlertEventType → WorkItem → Alert
  with_event_framing alert event w =
      let label = event_label event in
      record alert {
        title = label ++ (units ": " ++ alert.title);
        body =
            label
            ++ (units " — work item "
                ++ (ident_text w.id
                    ++ (units ", "
                        ++ (number_text w.signal_count
                            ++ (units " signal(s) so far.\n" ++ alert.body)))));
      }

-- The resolved notifiers of the channels, those without one left out.
abbrev pub configured : NotifierRegistryConfig → List NotificationChannel → List Notifier
configured c [] = []
configured c (channel ∷ channels) = elim (resolve_notifier c channel) [
  | none ↦ configured c channels
  | some n ↦ n ∷ configured c channels
]

-- fanOut's targets.
abbrev pub targets : NotifierRegistryConfig → Alert → List Notifier
targets c alert = console ∷ configured c alert.channels
