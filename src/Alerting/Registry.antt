-- ===== src/Alerting/Registry.antt =====
-- backend/src/domain/alerting/registry.ts. The Map is an association list in the order in which its
-- keys were first set.
use inveni_ops.Base.{ℕ, List, [], ◌∷◌, Option, none, some, if◌then◌else◌}
use inveni_ops.Base.Int.{ℤ}
use inveni_ops.Text.{Text, same_text}
use inveni_ops.Alerting.{AlertStrategy}
use inveni_ops.Alerting.Strategies.{
  rdbms_alert_strategy, nosql_alert_strategy, cache_alert_strategy, api_alert_strategy,
  mcp_host_alert_strategy, queue_alert_strategy, default_alert_strategy,
}

pub record AlertStrategyRegistry : Type 0 where
  pub fallback : AlertStrategy
  pub strategies : List (Text × AlertStrategy)

unfoldable pub set_strategy :
    List (Text × AlertStrategy) → Text → AlertStrategy → List (Text × AlertStrategy)
set_strategy [] key strategy = (key, strategy) ∷ []
set_strategy (e ∷ es) key strategy =
    let rest = set_strategy es key strategy in
    if same_text e.0 key then (e.0, strategy) ∷ es else e ∷ rest

unfoldable pub find_strategy : List (Text × AlertStrategy) → Text → Option AlertStrategy
find_strategy [] key = none
find_strategy (e ∷ es) key =
    let rest = find_strategy es key in if same_text e.0 key then some e.1 else rest

unfoldable pub register : AlertStrategyRegistry → AlertStrategy → AlertStrategyRegistry
register r strategy = record r {
  strategies = set_strategy r.strategies strategy.component_type strategy;
}

abbrev pub or_fallback : Option AlertStrategy → AlertStrategy → AlertStrategy
or_fallback none fallback = fallback
or_fallback (some strategy) fallback = strategy

unfoldable pub resolve : AlertStrategyRegistry → Text → AlertStrategy
resolve r component_type = or_fallback (find_strategy r.strategies component_type) r.fallback

unfoldable pub register_all : AlertStrategyRegistry → List AlertStrategy → AlertStrategyRegistry
register_all r [] = r
register_all r (s ∷ ss) = register_all (register r s) ss

-- The constructor of AlertStrategyRegistry.
unfoldable pub new_registry : AlertStrategy → List AlertStrategy → AlertStrategyRegistry
new_registry fallback initial =
    register_all (record { fallback = fallback; strategies = [] }) initial

module _ (number_text : ℕ → Text) (to_iso_string : ℤ → Text) where
  unfoldable pub create_default_alert_strategy_registry : AlertStrategyRegistry
  create_default_alert_strategy_registry =
      new_registry (default_alert_strategy number_text to_iso_string) (
        rdbms_alert_strategy number_text to_iso_string
        ∷ nosql_alert_strategy number_text to_iso_string
        ∷ cache_alert_strategy number_text to_iso_string
        ∷ api_alert_strategy number_text to_iso_string
        ∷ mcp_host_alert_strategy number_text to_iso_string
        ∷ queue_alert_strategy number_text to_iso_string
        ∷ [])
