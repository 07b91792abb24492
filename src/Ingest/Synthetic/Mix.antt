-- ===== src/Ingest/Synthetic/Mix.antt =====
-- The severities that the generated components have (backend/src/api/routes/syntheticSeverity.ts)
-- against the floors of the alert strategies.
use inveni_ops.Base.{ℕ, zero, suc, ◌+◌, ◌*◌, ◌<◌, ◌≤◌, arith, List, [], ◌∷◌, if◌then◌else◌}
use inveni_ops.Base.Int.{ℤ}
use inveni_ops.Text.{Text}
use inveni_ops.Types.{
  Severity, p0, p1, p2, p3, ComponentType, api, mcp_host, cache, queue, rdbms, nosql, same_severity,
}
use inveni_ops.Alerting.{AlertStrategy}
use inveni_ops.Alerting.Strategies.{
  rdbms_alert_strategy, nosql_alert_strategy, cache_alert_strategy, api_alert_strategy,
  mcp_host_alert_strategy, queue_alert_strategy,
}
use inveni_ops.Ingest.Synthetic.{
  severity_mix, pick_severity_for_component_type, pick_from, characteristic_roll, ranks_per_type,
}

-- How many of the first `n` components of a type have a severity.
abbrev pub drawn : ℕ → ComponentType → Severity → ℕ
drawn zero t s = 0
drawn (suc n) t s =
    (if same_severity (pick_severity_for_component_type t (characteristic_roll n)) s then 1 else 0)
    + drawn n t s

abbrev pub weight_in : List (Severity × ℕ) → Severity → ℕ
weight_in [] s = 0
weight_in ((t, w) ∷ mix) s = (if same_severity t s then w else 0) + weight_in mix s

-- A type's components share out the severities as its mix does, to less than one component.
abbrev pub Proportional : ComponentType → Severity → Type 0
Proportional t s =
    (ranks_per_type * weight_in (severity_mix t) s < 100 * drawn ranks_per_type t s + 100)
    × (100 * drawn ranks_per_type t s < ranks_per_type * weight_in (severity_mix t) s + 100)

module _ (number_text : ℕ → Text) (to_iso_string : ℤ → Text) where
  abbrev pub strategy : ComponentType → AlertStrategy
  strategy rdbms = rdbms_alert_strategy number_text to_iso_string
  strategy nosql = nosql_alert_strategy number_text to_iso_string
  strategy cache = cache_alert_strategy number_text to_iso_string
  strategy api = api_alert_strategy number_text to_iso_string
  strategy mcp_host = mcp_host_alert_strategy number_text to_iso_string
  strategy queue = queue_alert_strategy number_text to_iso_string

  -- The severity floor of a type's strategy is more frequent than any other severity.
  abbrev pub Modal : ComponentType → Severity → Type 0
  Modal t s =
      drawn ranks_per_type t s + (if same_severity (strategy t).severity_floor s then 0 else 1)
      ≤ drawn ranks_per_type t (strategy t).severity_floor

  -- The severities of the generated components of each type are in the proportions of its mix, to
  -- less than one component, and the floor of the type's alert strategy is the most frequent one.
  pub drawn-Proportional-Modal : (t : ComponentType) (s : Severity) → Proportional t s × Modal t s
  unfolding pick_severity_for_component_type pick_from characteristic_roll ranks_per_type
      rdbms_alert_strategy nosql_alert_strategy cache_alert_strategy api_alert_strategy
      mcp_host_alert_strategy queue_alert_strategy
  drawn-Proportional-Modal api p0 = ((omega arith, omega arith), omega arith)
  drawn-Proportional-Modal api p1 = ((omega arith, omega arith), omega arith)
  drawn-Proportional-Modal api p2 = ((omega arith, omega arith), omega arith)
  drawn-Proportional-Modal api p3 = ((omega arith, omega arith), omega arith)
  drawn-Proportional-Modal mcp_host p0 = ((omega arith, omega arith), omega arith)
  drawn-Proportional-Modal mcp_host p1 = ((omega arith, omega arith), omega arith)
  drawn-Proportional-Modal mcp_host p2 = ((omega arith, omega arith), omega arith)
  drawn-Proportional-Modal mcp_host p3 = ((omega arith, omega arith), omega arith)
  drawn-Proportional-Modal cache p0 = ((omega arith, omega arith), omega arith)
  drawn-Proportional-Modal cache p1 = ((omega arith, omega arith), omega arith)
  drawn-Proportional-Modal cache p2 = ((omega arith, omega arith), omega arith)
  drawn-Proportional-Modal cache p3 = ((omega arith, omega arith), omega arith)
  drawn-Proportional-Modal queue p0 = ((omega arith, omega arith), omega arith)
  drawn-Proportional-Modal queue p1 = ((omega arith, omega arith), omega arith)
  drawn-Proportional-Modal queue p2 = ((omega arith, omega arith), omega arith)
  drawn-Proportional-Modal queue p3 = ((omega arith, omega arith), omega arith)
  drawn-Proportional-Modal rdbms p0 = ((omega arith, omega arith), omega arith)
  drawn-Proportional-Modal rdbms p1 = ((omega arith, omega arith), omega arith)
  drawn-Proportional-Modal rdbms p2 = ((omega arith, omega arith), omega arith)
  drawn-Proportional-Modal rdbms p3 = ((omega arith, omega arith), omega arith)
  drawn-Proportional-Modal nosql p0 = ((omega arith, omega arith), omega arith)
  drawn-Proportional-Modal nosql p1 = ((omega arith, omega arith), omega arith)
  drawn-Proportional-Modal nosql p2 = ((omega arith, omega arith), omega arith)
  drawn-Proportional-Modal nosql p3 = ((omega arith, omega arith), omega arith)
