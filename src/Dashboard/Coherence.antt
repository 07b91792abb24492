-- ===== src/Dashboard/Coherence.antt =====
-- Reads of single incidents in backend/src/services/dashboard/dashboardProjection.ts, while the
-- cache agrees with the database.
use mathlib.Core.Option.{some-injective}
use inveni_ops.Base.{
  ap₂, ℕ, ◌≡◌, ◌⊎◌, inl, inr, ap, sym, ◌∙◌, false, List, [], ◌∷◌, map, Option, some,
}
use inveni_ops.Base.Int.{ℤ}
use inveni_ops.Types.{Ident}
use inveni_ops.WorkItems.{WorkItem, RcaRow}
use inveni_ops.Dashboard.{IncidentSummary, DashboardWorld, summary_at, is_closed, active_score}

-- The summary tells of the item, up to the time of its last update.
abbrev pub Tells : IncidentSummary → WorkItem → Type 0
Tells s item = s ≡ record {
  id = item.id;
  component_id = item.component_id;
  component_type = item.component_type;
  severity = item.severity;
  state = item.state;
  title = item.title;
  first_signal_at = item.first_signal_at;
  signal_count = item.signal_count;
  updated_at = s.updated_at;
}

-- The summaries tell of the items, one of each, in their order.
abbrev pub TellsAll : List IncidentSummary → List WorkItem → Type 0
TellsAll [] [] = Unit
TellsAll [] (item ∷ items) = ⊥
TellsAll (s ∷ ss) [] = ⊥
TellsAll (s ∷ ss) (item ∷ items) = Tells s item × TellsAll ss items

abbrev pub ids_of : List WorkItem → List Ident
ids_of items = map (λ (item : WorkItem). item.id) items

-- A write of the cache leaves the database alone, and what is read of a key afterwards is what was
-- written or was there before.
pub record Lawful (world : DashboardWorld) : Type 0 where
  pub written :
      (w : world.W) (s t : IncidentSummary) (ttl : ℕ) (score : ℤ) (i : Ident)
      → world.get (world.write_entry w s ttl score) i ≡ some (some t)
      → ((i ≡ s.id) × (t ≡ s)) ⊎ (world.get w i ≡ some (some t))
  pub same_rows :
      (w : world.W) (s : IncidentSummary) (ttl : ℕ) (score : ℤ) (i : Ident)
      → world.find_by_id (world.write_entry w s ttl score) i ≡ world.find_by_id w i

module _ (world : DashboardWorld) (ttl cap : ℕ) where
  open world use {W, now, get, find_by_id, write_entry, list_active, count_active}

  -- What the cache holds of an item agrees with its row.
  abbrev pub Coherent : W → Type 0
  Coherent w =
      (i : Ident) (s : IncidentSummary) (item : WorkItem) (rca : Option RcaRow)
      → get w i ≡ some (some s)
      → find_by_id w i ≡ some (item, rca)
      → Tells s item

  -- The items have open rows under their ids.
  abbrev pub Open : W → WorkItem → Type 0
  Open w item =
      (is_closed item ≡ false) × (rca : Option RcaRow) × (find_by_id w item.id ≡ some (item, rca))

module _ (world : DashboardWorld) (ttl cap : ℕ) (lawful : Lawful world) where
  open world use {W, now, get, find_by_id, write_entry, list_active, count_active}

  pub upsert-Coherent :
      (w : W) (item : WorkItem) (rca : Option RcaRow)
      → find_by_id w item.id ≡ some (item, rca)
      → Coherent world ttl cap w
      → Coherent world ttl cap (write_entry w (summary_at item (now w)) ttl (active_score item))
  upsert-Coherent w item rca row h i s item' rca' cached row' =
      let same = lawful.same_rows w (summary_at item (now w)) ttl (active_score item) i in
      elim (lawful.written w (summary_at item (now w)) s ttl (active_score item) i cached) [
        | inl (own, fresh) ↦
            let items : item ≡ item' =
              ap (λ q. q.0)
                (some-injective (item, rca) (item', rca')
                  (sym row ∙ ap (find_by_id w) (sym own) ∙ sym same ∙ row')) in
            fresh ∙ ap₂ summary_at items (sym (ap (λ (u : IncidentSummary). u.updated_at) fresh))
        | inr before ↦ h i s item' rca' before (sym same ∙ row')
      ]

  -- What a read of one incident leaves behind, and gives.
  record Served (w : W) (item : WorkItem) (r : W × Option IncidentSummary) : Type 0 where
    summary : IncidentSummary
    given : r.1 ≡ some summary
    told : Tells summary item
    coherent : Coherent world ttl cap r.0
    same : (i : Ident) → find_by_id r.0 i ≡ find_by_id w i
