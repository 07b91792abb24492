-- ===== src/Tests/DashboardTests.antt =====
-- The dashboard's reads over one incident, whose cache entry is the state.
use inveni_ops.Base.{
  ℕ, ◌<◌, ◌↔◌, ◌⊎◌, refl, arith, Bool, true, false, [], ◌∷◌, Option, none, some, if◌then◌else◌,
  ◌==◌,
}
use inveni_ops.Base.Int.{pos}
use inveni_ops.Types.{opened, p1, p2, cache}
use inveni_ops.Rca.Laws.{◌<ℤ◌}
use inveni_ops.WorkItems.{WorkItem, RcaRow}
use inveni_ops.Dashboard.{IncidentSummary, ActiveIncidentPage, DashboardWorld, active_score}
use inveni_ops.Dashboard.Score.{active_score_iff}

abbrev the_incident : WorkItem
the_incident = record {
  id = 7;
  component_id = 30;
  component_type = cache;
  severity = p1;
  state = opened;
  title = 9;
  first_signal_at = pos 100;
  resolved_at = none;
  closed_at = none;
  signal_count = 4;
  created_at = pos 100;
  updated_at = pos 100;
}

abbrev row_at : Bool → Option (WorkItem × Option RcaRow)
row_at true = some (the_incident, none)
row_at false = none

abbrev page_of : Option IncidentSummary → ActiveIncidentPage
page_of none = record { ids = []; total = 0 }
page_of (some s) = record { ids = 7 ∷ []; total = 1 }

abbrev entry_at : Bool → Option IncidentSummary → Option IncidentSummary
entry_at true w = w
entry_at false w = none

abbrev one_entry : DashboardWorld
one_entry = record {
  W = Option IncidentSummary;
  now = λ w. pos 500;
  write_entry = λ w s ttl score. if s.id == 7 then some s else w;
  delete_entry = λ w i. none;
  get = λ w i. some (entry_at (i == 7) w);
  zrange = λ w from to. some (page_of w);
  find_by_id = λ w i. row_at (i == 7);
  list_active = λ w p. the_incident ∷ [];
  count_active = λ w. 1;
}

active_score_iff_example :
    (active_score the_incident
      <ℤ active_score (record the_incident { severity = p2; first_signal_at = pos 3 }))
    ↔ ((1 < 2) ⊎ ((Path ℕ 1 2) × (100 < 3)))
active_score_iff_example =
    active_score_iff the_incident (record the_incident { severity = p2; first_signal_at = pos 3 })
      100 3 refl refl (omega arith) (omega arith)
