-- ===== src/Tests/StateTests.antt =====
-- backend/src/domain/state at concrete inputs.
use inveni_ops.Base.{◌≡◌, ◌⊎◌, Bool, true}
use inveni_ops.Base.Int.{pos}
use inveni_ops.Types.{resolved, closed}
use inveni_ops.State.{
  TransitionContext, TransitionGuard, moved, invalid_transition, transition, graph,
}
use inveni_ops.State.Lifecycle.{Step, transition-Step_or_invalid}

abbrev closing : TransitionContext Bool
closing = record {
  work_item = record { id = 7; state = resolved; first_signal_at = pos 1000 };
  to = closed;
  payload = true;
}

-- A guard that reads the payload.
abbrev on_payload : TransitionGuard Bool
on_payload context = context.payload

transition-Step_or_invalid_example :
    (Step true resolved closed
      × (transition (graph on_payload resolved) closing ≡ moved (graph on_payload closed)))
    ⊎ ((¬ Step true resolved closed)
        × (transition (graph on_payload resolved) closing ≡ invalid_transition resolved closed))
transition-Step_or_invalid_example = transition-Step_or_invalid on_payload resolved closing
