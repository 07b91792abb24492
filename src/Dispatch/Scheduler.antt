-- ===== src/Dispatch/Scheduler.antt =====
-- backend/src/services/alerting/escalationScheduler.ts. Its timer is left out; the items that
-- Promise.all starts together are escalated one after another.
use inveni_ops.Base.{ℕ, Bool, true, false, List, [], ◌∷◌, if◌then◌else◌}
use inveni_ops.Base.Int.{ℤ, pos, ◌+ℤ◌, ◌-ℤ◌, ltb_ℤ}
use inveni_ops.Types.{Ident, p0}
use inveni_ops.Text.{Text}
use inveni_ops.Alerting.{get_escalation_policy, reconcile_severity}
use inveni_ops.Alerting.Registry.{AlertStrategyRegistry}
use inveni_ops.WorkItems.{WorkItem}
use inveni_ops.Dispatch.Framing.{NotifierRegistryConfig}
use inveni_ops.Dispatch.{
  AlertWorld, AlertDispatcherOptions, AlertState, strategy_of, dispatch_escalation,
}

unfoldable pub widest_possible_cutoff : ℤ → ℤ
widest_possible_cutoff now = now -ℤ pos (get_escalation_policy p0).acknowledge_within_ms

module _ (world : AlertWorld) (o : AlertDispatcherOptions) where
  module _ (strategies : AlertStrategyRegistry) (notifiers : NotifierRegistryConfig)
      (ident_text : Ident → Text) (number_text : ℕ → Text) where
    unfoldable pub overdue_since : WorkItem → ℤ
    overdue_since item =
        item.first_signal_at
        +ℤ pos
            (get_escalation_policy (
              reconcile_severity
                (strategy_of world o strategies notifiers ident_text number_text
                  item).severity_floor
                item.severity)).acknowledge_within_ms

    abbrev pub and_record : Ident → AlertState world o × Bool → AlertState world o
    and_record i (s, true) = record s { outside = world.record_escalation_row s.outside i }
    and_record i (s, false) = s

    unfoldable pub maybe_escalate : ℤ → AlertState world o → WorkItem → AlertState world o
    unfolding dispatch_escalation overdue_since
    maybe_escalate now s item =
        let escalated =
          and_record item.id
            (dispatch_escalation world o strategies notifiers ident_text number_text s item) in
        if ltb_ℤ now (overdue_since item) then s else escalated

    unfoldable pub escalate_all : ℤ → AlertState world o → List WorkItem → AlertState world o
    unfolding maybe_escalate
    escalate_all now s [] = s
    escalate_all now s (item ∷ items) = escalate_all now (maybe_escalate now s item) items

    unfoldable pub tick : ℤ → AlertState world o → AlertState world o
    unfolding escalate_all widest_possible_cutoff
    tick now s =
        escalate_all now s (world.find_open_older_than s.outside (widest_possible_cutoff now))
