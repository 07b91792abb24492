-- ===== src/Dispatch/Once.antt =====
-- How often dispatchEscalation of backend/src/services/alerting/dispatcher.ts escalates a work item.
use inveni_ops.Base.{ℕ, zero, suc, Bool}
use inveni_ops.Types.{Ident}
use inveni_ops.Text.{Text}
use inveni_ops.Alerting.Registry.{AlertStrategyRegistry}
use inveni_ops.WorkItems.{WorkItem}
use inveni_ops.Dispatch.Framing.{NotifierRegistryConfig}
use inveni_ops.Dispatch.{AlertWorld, AlertDispatcherOptions, AlertState, dispatch_escalation}
use inveni_ops.Dispatch.Claims.{Lawful}

module _ (world : AlertWorld) (o : AlertDispatcherOptions) (Taken : world.W → Ident → Type 0)
    (lawful : Lawful world Taken) where
  open world use {W, Error, sadd, expire}

  module _ (strategies : AlertStrategyRegistry) (notifiers : NotifierRegistryConfig)
      (ident_text : Ident → Text) (number_text : ℕ → Text) where
    abbrev pub escalate : AlertState world o → WorkItem → AlertState world o × Bool
    escalate s item = dispatch_escalation world o strategies notifiers ident_text number_text s item

    -- Further attempts at the same item.
    unfoldable pub attempts : ℕ → AlertState world o → WorkItem → AlertState world o
    attempts zero s item = s
    attempts (suc n) s item = attempts n (escalate s item).0 item
