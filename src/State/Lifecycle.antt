-- ===== src/State/Lifecycle.antt =====
-- What the graph of states allows: one way through the life cycle, and its only guard.
use inveni_ops.Base.{
  ◌≡◌, refl, ◌↔◌, ◌⊎◌, inl, inr, Bool, true, false, arith, Bool-cases, sym, ◌∙◌, if◌then◌else◌,
}
use mathlib.Core.Bool.{false≢true}
use mathlib.Core.List.Memᴰ.{head, tail, not-nil}
use mathlib.Core.List.{Memᴰ}
use inveni_ops.Types.{WorkItemStateName, opened, investigating, resolved, closed}
use inveni_ops.State.{
  TransitionContext, TransitionGuard, moved, invalid_transition, transition, target_names, graph,
  legal_next_states,
}

-- The edges of the life cycle as the documentation draws them.
pub data Step (can_close : Bool) : WorkItemStateName → WorkItemStateName → Type 0 where
  investigate : Step can_close opened investigating
  resolve : Step can_close investigating resolved
  close : can_close ≡ true → Step can_close resolved closed

abbrev edge : Bool → WorkItemStateName → WorkItemStateName → Bool
edge b opened investigating = true
edge b investigating resolved = true
edge b resolved closed = b
edge b _ _ = false

Step-edge : (b : Bool) (s t : WorkItemStateName) → edge b s t ≡ true → Step b s t
Step-edge b opened investigating h = investigate
Step-edge b investigating resolved h = resolve
Step-edge b resolved closed h = close h
Step-edge b s t h = absurd (ground arith)

edge-Step : (b : Bool) {s t : WorkItemStateName} → Step b s t → edge b s t ≡ true
edge-Step b investigate = refl
edge-Step b resolve = refl
edge-Step b (close h) = h

module _ {P : Type 0} (can_close : TransitionGuard P) where
  transition-edge :
      (s : WorkItemStateName) (context : TransitionContext P)
      → transition (graph can_close s) context ≡ (
          if edge (can_close context) s context.to
          then moved (graph can_close context.to)
          else invalid_transition s context.to)
  unfolding transition graph
  transition-edge opened context = ground arith
  transition-edge investigating context = ground arith
  transition-edge resolved context = ground arith
  transition-edge closed context = ground arith

  -- The transition of the graph's object for `s` succeeds exactly along an edge of the life cycle,
  -- and then returns the graph's object for the state asked for; on every other request it fails
  -- with an error that names `s` and that state.
  pub transition-Step_or_invalid :
      (s : WorkItemStateName) (context : TransitionContext P)
      → (Step (can_close context) s context.to
          × (transition (graph can_close s) context ≡ moved (graph can_close context.to)))
        ⊎ ((¬ Step (can_close context) s context.to)
            × (transition (graph can_close s) context ≡ invalid_transition s context.to))
  transition-Step_or_invalid s context = elim (Bool-cases (edge (can_close context) s context.to)) [
    | inl legal ↦ inl (Step-edge _ _ _ legal, rw (transition-edge s context, legal))
    | inr illegal ↦ inr (
      λ step. false≢true (sym illegal ∙ edge-Step _ step),
      rw (transition-edge s context, illegal),
    )
  ]

listed-Step : (s t : WorkItemStateName) → Memᴰ t (legal_next_states s) → Step true s t
unfolding legal_next_states graph target_names
listed-Step opened t (head e) = rw e investigate
listed-Step investigating t (head e) = rw e resolve
listed-Step resolved t (head e) = rw e (close refl)
listed-Step opened t (tail m) = absurd (not-nil m)
listed-Step investigating t (tail m) = absurd (not-nil m)
listed-Step resolved t (tail m) = absurd (not-nil m)
listed-Step closed t m = absurd (not-nil m)

Step-listed : {s t : WorkItemStateName} → Step true s t → Memᴰ t (legal_next_states s)
unfolding legal_next_states graph target_names
Step-listed investigate = head refl
Step-listed resolve = head refl
Step-listed (close h) = head refl

-- The names that getLegalNextStates lists for `s` are the states that an edge leads to when the
-- guard on closing lets it through.
pub legal_next_states_iff : (s t : WorkItemStateName) → Memᴰ t (legal_next_states s) ↔ Step true s t
legal_next_states_iff s t = (listed-Step s t, Step-listed)
