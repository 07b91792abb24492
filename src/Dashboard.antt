-- ===== src/Dashboard.antt =====
-- backend/src/repositories/redis/dashboardCache.ts and the incident reads of
-- backend/src/services/dashboard/dashboardProjection.ts. Redis and PostgreSQL are the record
-- `DashboardWorld`; a date is its time value, and no other request runs between the awaits of one.
pub mod Score
pub mod Coherence
use inveni_ops.Base.{
  ℕ, ◌+◌, ◌*◌, ◌==◌, Bool, true, false, List, [], ◌∷◌, map, Option, none, some, if◌then◌else◌,
}
use inveni_ops.Base.Int.{ℤ, pos, ◌+ℤ◌, ◌-ℤ◌}
use inveni_ops.Types.{
  Ident, Severity, ComponentType, WorkItemStateName, closed, severity_rank, same_state,
}
use inveni_ops.WorkItems.{WorkItem, RcaRow}
use inveni_ops.State.{legal_next_states}

pub record IncidentSummary : Type 0 where
  pub id : Ident
  pub component_id : Ident
  pub component_type : ComponentType
  pub severity : Severity
  pub state : WorkItemStateName
  pub title : Ident
  pub first_signal_at : ℤ
  pub signal_count : ℕ
  pub updated_at : ℤ

pub record Pagination : Type 0 where
  pub limit : ℕ
  pub offset : ℕ

pub record ActiveIncidentPage : Type 0 where
  pub ids : List Ident
  pub total : ℕ

pub record Page : Type 0 where
  pub items : List IncidentSummary
  pub total : ℕ

unfoldable pub active_score : WorkItem → ℤ
active_score w = pos (severity_rank w.severity * 10_000_000_000_000) +ℤ w.first_signal_at

-- `updatedAt` is given: the row's for toIncidentSummary, the clock's for the cache.
abbrev pub summary_at : WorkItem → ℤ → IncidentSummary
summary_at w updated_at = record {
  id = w.id;
  component_id = w.component_id;
  component_type = w.component_type;
  severity = w.severity;
  state = w.state;
  title = w.title;
  first_signal_at = w.first_signal_at;
  signal_count = w.signal_count;
  updated_at = updated_at;
}

abbrev pub to_incident_summary : WorkItem → IncidentSummary
to_incident_summary w = summary_at w w.updated_at

abbrev pub is_closed : WorkItem → Bool
is_closed w = same_state w.state closed

-- Redis, PostgreSQL and the clock, over one state W of them. A read of Redis is `none` when it
-- cannot be reached; a write that fails is logged, so only what becomes of the state is told.
pub record DashboardWorld : Type 1 where
  pub W : Type 0
  pub now : W → ℤ
  -- SET EX of the summary with a time to live, and ZADD with a score; DEL and ZREM.
  pub write_entry : W → IncidentSummary → ℕ → ℤ → W
  pub delete_entry : W → Ident → W
  pub get : W → Ident → Option (Option IncidentSummary)
  -- ZCARD and ZRANGE, from the first index to the last.
  pub zrange : W → ℕ → ℤ → Option ActiveIncidentPage
  pub find_by_id : W → Ident → Option (WorkItem × Option RcaRow)
  pub list_active : W → Pagination → List WorkItem
  pub count_active : W → ℕ

pub record IncidentDetail : Type 0 where
  pub summary : IncidentSummary
  pub legal_next_states : List WorkItemStateName
  pub rca : Option RcaRow

module _ (world : DashboardWorld) (ttl_seconds repopulate_cap : ℕ) where
  open world use {
    W, now, write_entry, delete_entry, get, zrange, find_by_id, list_active, count_active,
  }

  unfoldable pub upsert_active_incident : W → WorkItem → W × Option IncidentSummary
  unfolding active_score
  upsert_active_incident w item = if is_closed item then (delete_entry w item.id, none) else (
    write_entry w (summary_at item (now w)) ttl_seconds (active_score item),
    some (summary_at item (now w)),
  )

  unfoldable pub get_active_incident_ids : W → Pagination → Option ActiveIncidentPage
  get_active_incident_ids w p = zrange w p.offset (pos (p.offset + p.limit) -ℤ pos 1)

  abbrev pub miss_if_unreachable : Option (Option IncidentSummary) → Option IncidentSummary
  miss_if_unreachable none = none
  miss_if_unreachable (some cached) = cached

  unfoldable pub get_cached_summary_or_null : W → Ident → Option IncidentSummary
  get_cached_summary_or_null w i = miss_if_unreachable (get w i)

  abbrev pub from_store : W → Option (WorkItem × Option RcaRow) → W × Option IncidentSummary
  from_store w none = (w, none)
  from_store w (some (item, rca)) =
      if is_closed item then (w, none) else upsert_active_incident w item

  unfoldable pub get_incident_summary_cache_aware : W → Ident → W × Option IncidentSummary
  unfolding get_cached_summary_or_null upsert_active_incident
  get_incident_summary_cache_aware w i = elim (get_cached_summary_or_null w i) [
    | some cached ↦ (w, some cached)
    | none ↦ from_store w (find_by_id w i)
  ]

  abbrev pub keep_some :
      Option IncidentSummary → W × List IncidentSummary → W × List IncidentSummary
  keep_some none (w, items) = (w, items)
  keep_some (some s) (w, items) = (w, s ∷ items)

  -- The summaries of the ids, without the nulls.
  unfoldable pub summaries : List Ident → W → W × List IncidentSummary
  unfolding get_incident_summary_cache_aware
  summaries [] w = (w, [])
  summaries (i ∷ is) w =
      let (w', s) = get_incident_summary_cache_aware w i in keep_some s (summaries is w')

  unfoldable pub get_active_incidents_from_postgres : W → Pagination → Page
  get_active_incidents_from_postgres w p = record {
    items = map to_incident_summary (list_active w p);
    total = count_active w;
  }

  abbrev pub upsert_all : List WorkItem → W → W
  upsert_all [] w = w
  upsert_all (item ∷ items) w = upsert_all items (upsert_active_incident w item).0

  unfoldable pub repopulate_active_cache : W → W
  unfolding upsert_active_incident
  repopulate_active_cache w =
      upsert_all (list_active w (record { limit = repopulate_cap; offset = 0 })) w

  abbrev pub read_page : Pagination → W → Option ActiveIncidentPage → W × Page
  read_page p w none = (w, get_active_incidents_from_postgres w p)
  read_page p w (some page) =
      let (w', items) = summaries page.ids w in (w', record { items = items; total = page.total })

  abbrev pub first_page : Pagination → W → Option ActiveIncidentPage → W × Page
  first_page p w none = read_page p w none
  first_page p w (some page) =
      let again = repopulate_active_cache w in
      if page.total == 0
      then read_page p again (get_active_incident_ids again p)
      else read_page p w (some page)

  unfoldable pub get_active_incidents : W → Pagination → W × Page
  unfolding get_active_incident_ids summaries get_active_incidents_from_postgres
      repopulate_active_cache
  get_active_incidents w p = first_page p w (get_active_incident_ids w p)

  abbrev pub detail_of : W → Option (WorkItem × Option RcaRow) → W × Option IncidentDetail
  detail_of w none = (w, none)
  detail_of w (some (item, rca)) = (
    if is_closed item then w else (upsert_active_incident w item).0,
    some (record {
      summary = to_incident_summary item;
      legal_next_states = legal_next_states item.state;
      rca = rca;
    }),
  )

  unfoldable pub get_incident_detail : W → Ident → W × Option IncidentDetail
  unfolding get_cached_summary_or_null upsert_active_incident
  get_incident_detail w i = elim (get_cached_summary_or_null w i) [
    | some cached ↦ (
      w,
      some (record {
        summary = cached;
        legal_next_states = legal_next_states cached.state;
        rca = none;
      }),
    )
    | none ↦ detail_of w (find_by_id w i)
  ]
