-- ===== src/Dispatch/Overdue.antt =====
-- Which work items a tick of backend/src/services/alerting/escalationScheduler.ts escalates.
use mathlib.Core.List.{Memᴰ}
use mathlib.Core.List.Memᴰ.{head, tail, not-nil, cases_cons}
use mathlib.Core.Bool.{false≢true}
use inveni_ops.Base.{
  ℕ, ◌≡◌, ◌↔◌, inl, inr, ap, sym, ◌∙◌, subst, arith, Bool, true, false, not, List, [], ◌∷◌, keep_if,
  Bool-cases,
}
use inveni_ops.Base.Int.{ℤ, ◌≤ℤ◌, ltb_ℤ}
use inveni_ops.Types.{Ident}
use inveni_ops.Text.{Text}
use inveni_ops.Alerting.Registry.{AlertStrategyRegistry}
use inveni_ops.WorkItems.{WorkItem}
use inveni_ops.Dispatch.Framing.{NotifierRegistryConfig}
use inveni_ops.Dispatch.{AlertWorld, AlertDispatcherOptions, AlertState, dispatch_escalation}
use inveni_ops.Dispatch.Scheduler.{overdue_since, and_record}

module _ {A : Type 0} (p : A → Bool) where
  pub kept-listed : (x : A) (xs : List A) → Memᴰ x (keep_if p xs) → Memᴰ x xs × (p x ≡ true)
  kept-listed x [] m = absurd (not-nil m)
  kept-listed x (y ∷ ys) m = elim (Bool-cases (p y)) [
    | inl e ↦
        elim (cases_cons
          (subst (λ b. Memᴰ x (elim b [ true ↦ y ∷ keep_if p ys | false ↦ keep_if p ys ])) e m)) [
            | inl same ↦ (head same, ap p same ∙ e)
            | inr later ↦ let (l, q) = kept-listed x ys later in (tail l, q)
          ]
    | inr e ↦
        let (l, q) =
          kept-listed x ys
            (subst (λ b. Memᴰ x (elim b [ true ↦ y ∷ keep_if p ys | false ↦ keep_if p ys ])) e m) in
        (tail l, q)
  ]

  pub listed-kept : (x : A) (xs : List A) → Memᴰ x xs → p x ≡ true → Memᴰ x (keep_if p xs)
  listed-kept x [] m e = absurd (not-nil m)
  listed-kept x (y ∷ ys) m e = elim (Bool-cases (p y)) [
    | inl f ↦
        subst (λ b. Memᴰ x (elim b [ true ↦ y ∷ keep_if p ys | false ↦ keep_if p ys ])) (sym f)
          (elim (cases_cons m) [
            | inl same ↦ head same
            | inr later ↦ tail (listed-kept x ys later e)
          ])
    | inr f ↦
        subst (λ b. Memᴰ x (elim b [ true ↦ y ∷ keep_if p ys | false ↦ keep_if p ys ])) (sym f)
          (elim (cases_cons m) [
            | inl same ↦ absurd (false≢true (sym f ∙ ap p (sym same) ∙ e))
            | inr later ↦ listed-kept x ys later e
          ])
  ]

pub not_before : (a b : ℤ) → (not (ltb_ℤ a b) ≡ true) ↔ (b ≤ℤ a)
not_before a b = (λ h. ground arith, λ h. ground arith)

module _ (world : AlertWorld) (o : AlertDispatcherOptions) (strategies : AlertStrategyRegistry)
    (notifiers : NotifierRegistryConfig) (ident_text : Ident → Text) (number_text : ℕ → Text) where
  abbrev pub since : WorkItem → ℤ
  since item = overdue_since world o strategies notifiers ident_text number_text item

  abbrev due : ℤ → WorkItem → Bool
  due now item = not (ltb_ℤ now (since item))

  -- dispatchEscalation, and the row on the audit trail if it escalates, for each of the items.
  unfoldable pub escalate_each : AlertState world o → List WorkItem → AlertState world o
  escalate_each s [] = s
  escalate_each s (item ∷ items) =
      escalate_each
        (and_record world o strategies notifiers ident_text number_text item.id
          (dispatch_escalation world o strategies notifiers ident_text number_text s item))
        items
