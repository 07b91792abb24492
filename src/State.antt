-- ===== src/State.antt =====
-- backend/src/domain/state: the work item's life cycle as a graph of state objects. A state holds
-- the entries that lead out of it, an entry its target and perhaps a guard; the payload of a
-- context is a type parameter here, as it is in types.ts.
pub mod Lifecycle
use inveni_ops.Base.{ℕ, Bool, true, false, not, List, [], ◌∷◌, Option, none, some, if◌then◌else◌}
use inveni_ops.Base.Int.{ℤ}
use inveni_ops.Types.{Ident, WorkItemStateName, opened, investigating, resolved, closed, same_state}

pub record WorkItemSnapshot : Type 0 where
  pub id : Ident
  pub state : WorkItemStateName
  pub first_signal_at : ℤ

pub record TransitionContext (P : Type 0) : Type 0 where
  pub work_item : WorkItemSnapshot
  pub to : WorkItemStateName
  pub payload : P

abbrev pub TransitionGuard : Type 0 → Type 0
TransitionGuard P = TransitionContext P → Bool

-- What `transition` returns, or the InvalidTransitionError that it throws.
pub data Outcome (A : Type 0) : Type 0 where
  moved : A → Outcome A
  invalid_transition : WorkItemStateName → WorkItemStateName → Outcome A

mutual
  pub data WorkItemState (P : Type 0) : Type 0 where
    state : WorkItemStateName → Transitions P → WorkItemState P

  -- The entries in the order of the constructor's array: target and optional guard.
  pub data Transitions (P : Type 0) : Type 0 where
    none_left : Transitions P
    entry : WorkItemState P → Option (TransitionGuard P) → Transitions P → Transitions P

module _ {P : Type 0} where
  abbrev pub name : WorkItemState P → WorkItemStateName
  name (state n ts) = n

  abbrev pub transitions : WorkItemState P → Transitions P
  transitions (state n ts) = ts

  -- `this.transitions.get(to)`: in a Map built from the entries the last one for a key counts.
  pub get :
      Transitions P → WorkItemStateName → Option (WorkItemState P × Option (TransitionGuard P))
  get none_left to = none
  get (entry target guard rest) to = elim (get rest to) [
    | some found ↦ some found
    | none ↦ if same_state (name target) to then some (target, guard) else none
  ]

  -- `entry.guard && !entry.guard(context)`
  abbrev pub refused : Option (TransitionGuard P) → TransitionContext P → Bool
  refused none context = false
  refused (some guard) context = not (guard context)

  pub transition : WorkItemState P → TransitionContext P → Outcome (WorkItemState P)
  unfolding get
  transition s context = elim (get (transitions s) context.to) [
    | none ↦ invalid_transition (name s) context.to
    | some (target, guard) ↦
        if refused guard context then invalid_transition (name s) context.to else moved target
  ]

  -- `[...this.transitions.keys()]`; no class lists two entries with one target.
  pub target_names : Transitions P → List WorkItemStateName
  target_names none_left = []
  target_names (entry target guard rest) = name target ∷ target_names rest

  pub closed_state : WorkItemState P
  closed_state = state closed none_left

  pub resolved_state : WorkItemState P → TransitionGuard P → WorkItemState P
  resolved_state target can_close = state resolved (entry target (some can_close) none_left)

  pub investigating_state : WorkItemState P → WorkItemState P
  investigating_state target = state investigating (entry target none none_left)

  pub open_state : WorkItemState P → WorkItemState P
  open_state target = state opened (entry target none none_left)

  -- createWorkItemStateGraph, as the function from a state's name to its object.
  pub graph : TransitionGuard P → WorkItemStateName → WorkItemState P
  unfolding closed_state resolved_state investigating_state open_state
  graph can_close closed = closed_state
  graph can_close resolved = resolved_state closed_state can_close
  graph can_close investigating = investigating_state (resolved_state closed_state can_close)
  graph can_close opened = open_state (investigating_state (resolved_state closed_state can_close))

-- getLegalNextStates, whose own graph closes on every context.
pub legal_next_states : WorkItemStateName → List WorkItemStateName
unfolding graph target_names
legal_next_states s = target_names (transitions (graph {P = Unit {0}} (λ _. true) s))
