-- ===== src/Alerting/Laws.antt =====
-- The severity rule of backend/src/domain/alerting, and that no strategy of the registry departs
-- from it.
use mathlib.Core.Bool.{false≢true}
use inveni_ops.Base.{
  ap, ℕ, ◌≤◌, ◌<◌, ◌≡◌, refl, sym, ◌∙◌, ◌≢◌, ◌⊎◌, inl, inr, true, false, min, arith, List, [], ◌∷◌,
  some, if◌then◌else◌, All, Bool-cases, Bool, subst, ltb,
}
use inveni_ops.Base.Int.{ℤ}
use inveni_ops.Types.{Severity, severity_rank}
use inveni_ops.Text.{Text, same_text, same_text_sound, same_text_refl}
use inveni_ops.Alerting.{AlertContext, AlertStrategy, reconcile_severity, get_escalation_policy}
use inveni_ops.Alerting.Strategies.{
  rdbms_alert_strategy, nosql_alert_strategy, cache_alert_strategy, api_alert_strategy,
  mcp_host_alert_strategy, queue_alert_strategy, default_alert_strategy,
}
use inveni_ops.Alerting.Registry.{
  AlertStrategyRegistry, set_strategy, find_strategy, register, resolve, register_all, new_registry,
  create_default_alert_strategy_registry,
}

-- The reconciled severity is one of the two given, and the more severe of them: its rank is the
-- smaller rank, so the floor is never undercut and never caps a report.
pub reconcile_severity-min :
    (floor reported : Severity)
    → (severity_rank (reconcile_severity floor reported)
        ≡ min (severity_rank floor) (severity_rank reported))
      × ((reconcile_severity floor reported ≡ floor)
          ⊎ (reconcile_severity floor reported ≡ reported))
unfolding reconcile_severity
reconcile_severity-min floor reported =
    elim (Bool-cases (ltb (severity_rank reported) (severity_rank floor))) [
      | inl lower ↦ rw lower (ground arith, inr refl)
      | inr not_lower ↦ rw not_lower (ground arith, inl refl)
    ]

-- A more severe incident has strictly less time to be acknowledged, or the same if both are of one
-- severity: the deadline grows with the rank.
pub get_escalation_policy_mono :
    (a b : Severity)
    → severity_rank a < severity_rank b
    → (get_escalation_policy a).acknowledge_within_ms
      < (get_escalation_policy b).acknowledge_within_ms
unfolding get_escalation_policy
get_escalation_policy_mono a b h = ground arith

-- What every alert of a strategy is due.
pub record IsSound (s : AlertStrategy) : Type 0 where
  pub reconciled :
      (context : AlertContext)
      → (s.build_alert context).severity
        ≡ reconcile_severity s.severity_floor context.reported_severity
  pub escalated :
      (context : AlertContext)
      → (s.build_alert context).escalation ≡ get_escalation_policy (s.build_alert context).severity
  pub notified : (context : AlertContext) → (s.build_alert context).channels ≢ []

find_strategy-set_strategy :
    (es : List (Text × AlertStrategy)) (key other : Text) (s : AlertStrategy)
    → find_strategy (set_strategy es key s) other
      ≡ (if same_text key other then some s else find_strategy es other)
unfolding set_strategy find_strategy
find_strategy-set_strategy [] key other s = refl
find_strategy-set_strategy (e ∷ es) key other s =
    let rest = find_strategy-set_strategy es key other s in
    elim (Bool-cases (same_text e.0 key)) [
      | inr apart ↦ elim (Bool-cases (same_text e.0 other)) [
        | inr skip ↦ rw (apart, skip) rest
        | inl hit ↦ elim (Bool-cases (same_text key other)) [
          | inr differ ↦ rw (apart, hit, differ) refl
          | inl same ↦ absurd (
              false≢true (
                sym apart
                ∙ (ap (same_text e.0)
                      (same_text_sound key other same ∙ sym (same_text_sound e.0 other hit))
                    ∙ same_text_refl e.0)))
        ]
      ]
      | inl same ↦
          let moved : same_text e.0 other ≡ same_text key other =
            ap (λ t. same_text t other) (same_text_sound e.0 key same) in
          elim (Bool-cases (same_text key other)) [
            | inl hit ↦ rw (same, moved, hit) refl
            | inr miss ↦ rw (same, moved, miss) refl
          ]
    ]

-- A strategy that is registered is found under its own component type from then on, in place of
-- any earlier one, and what any other component type resolves to stays as it was.
pub resolve-register :
    (r : AlertStrategyRegistry) (s : AlertStrategy) (component_type : Text)
    → resolve (register r s) component_type
      ≡ (if same_text s.component_type component_type then s else resolve r component_type)
unfolding resolve register
resolve-register r s t = elim (Bool-cases (same_text s.component_type t)) [
  | inl same ↦ rw (find_strategy-set_strategy r.strategies s.component_type t s, same) refl
  | inr differ ↦ rw (find_strategy-set_strategy r.strategies s.component_type t s, differ) refl
]

branch-IsSound :
    (b : Bool) (s t : AlertStrategy) → IsSound s → IsSound t → IsSound (if b then s else t)
branch-IsSound true s t h k = h
branch-IsSound false s t h k = k

register_all-IsSound :
    (ss : List AlertStrategy) (r : AlertStrategyRegistry)
    → ((t : Text) → IsSound (resolve r t))
    → All IsSound ss
    → (t : Text) → IsSound (resolve (register_all r ss) t)
unfolding register_all
register_all-IsSound [] r h all t = h t
register_all-IsSound (s ∷ ss) r h all t =
    register_all-IsSound ss (register r s)
      (λ u. subst IsSound (sym (resolve-register r s u)) (branch-IsSound _ s _ all.0 (h u))) all.1 t

-- A registry that is built from a sound fallback and sound strategies resolves every component
-- type, known or not, to a sound strategy: the alert's severity is the reconciled one, its
-- escalation is the policy of that severity, and somebody is notified.
pub new_registry-IsSound :
    (fallback : AlertStrategy) (initial : List AlertStrategy)
    → IsSound fallback
    → All IsSound initial
    → (component_type : Text) → IsSound (resolve (new_registry fallback initial) component_type)
unfolding new_registry resolve find_strategy
new_registry-IsSound fallback initial h all t = register_all-IsSound initial _ (λ u. h) all t

module _ (number_text : ℕ → Text) (to_iso_string : ℤ → Text) where
  some_channel : {A : Type 0} (a : A) (rest : List A) → (a ∷ rest) ≢ []
  some_channel a rest e = cc

  rdbms-IsSound : IsSound (rdbms_alert_strategy number_text to_iso_string)
  unfolding rdbms_alert_strategy
  rdbms-IsSound = record {
    reconciled = λ c. refl;
    escalated = λ c. refl;
    notified = λ c. some_channel _ _;
  }

  nosql-IsSound : IsSound (nosql_alert_strategy number_text to_iso_string)
  unfolding nosql_alert_strategy
  nosql-IsSound = record {
    reconciled = λ c. refl;
    escalated = λ c. refl;
    notified = λ c. some_channel _ _;
  }

  cache-IsSound : IsSound (cache_alert_strategy number_text to_iso_string)
  unfolding cache_alert_strategy
  cache-IsSound = record {
    reconciled = λ c. refl;
    escalated = λ c. refl;
    notified = λ c. some_channel _ _;
  }

  api-IsSound : IsSound (api_alert_strategy number_text to_iso_string)
  unfolding api_alert_strategy
  api-IsSound = record {
    reconciled = λ c. refl;
    escalated = λ c. refl;
    notified = λ c. some_channel _ _;
  }

  mcp_host-IsSound : IsSound (mcp_host_alert_strategy number_text to_iso_string)
  unfolding mcp_host_alert_strategy
  mcp_host-IsSound = record {
    reconciled = λ c. refl;
    escalated = λ c. refl;
    notified = λ c. some_channel _ _;
  }

  queue-IsSound : IsSound (queue_alert_strategy number_text to_iso_string)
  unfolding queue_alert_strategy
  queue-IsSound = record {
    reconciled = λ c. refl;
    escalated = λ c. refl;
    notified = λ c. some_channel _ _;
  }

  default-IsSound : IsSound (default_alert_strategy number_text to_iso_string)
  unfolding default_alert_strategy
  default-IsSound = record {
    reconciled = λ c. refl;
    escalated = λ c. refl;
    notified = λ c. some_channel _ _;
  }

  -- The default registry's alert for any component type, known or not, is at least as severe as the
  -- signal reported, is escalated by the policy of its own severity, and goes to some channel.
  pub default_registry_alert :
      (component_type : Text) (context : AlertContext)
      → let r = create_default_alert_strategy_registry number_text to_iso_string in
        let alert = (resolve r component_type).build_alert context in
        (severity_rank alert.severity ≤ severity_rank context.reported_severity)
        × (alert.escalation ≡ get_escalation_policy alert.severity)
        × (alert.channels ≢ [])
  unfolding create_default_alert_strategy_registry
  default_registry_alert t context =
      let r = create_default_alert_strategy_registry number_text to_iso_string in
      let sound : IsSound (resolve r t) =
        new_registry-IsSound (default_alert_strategy number_text to_iso_string) _ default-IsSound
          (
            rdbms-IsSound,
            (
              nosql-IsSound,
              (cache-IsSound, (api-IsSound, (mcp_host-IsSound, (queue-IsSound, tt)))),
            ),
          )
          t in
      (
        rw (sound.reconciled context) (
            omega (
              arith,
              (reconcile_severity-min (resolve r t).severity_floor context.reported_severity).0,
            )),
        sound.escalated context,
        sound.notified context,
      )
