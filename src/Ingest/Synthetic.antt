-- ===== src/Ingest/Synthetic.antt =====
-- POST /signals/bulk-test of backend/src/api/routes/signals.ts, with the mix of severities of
-- syntheticSeverity.ts. The schema of the request's body is zod's: a parameter gives the input as it
-- is parsed, if it is. A weight counts hundredths, and a roll is an exact quotient.
pub mod Mix
pub mod Slots
use inveni_ops.Base.{
  ℕ, zero, suc, ◌+◌, ◌*◌, ◌/◌, ◌%◌, max, ltb, if◌then◌else◌, List, [], ◌∷◌, Option, none, some,
  length, get_elem?,
}
use inveni_ops.Base.Int.{ℤ}
use inveni_ops.Types.{
  Ident, Severity, p0, p1, p2, p3, ComponentType, api, mcp_host, cache, queue, rdbms, nosql,
}
use inveni_ops.Buffer.{IngestionSignal, Fraction}
use inveni_ops.Ingest.{Server, Response, bad_bulk_test, all_accepted, receive}

pub record SyntheticOverrides : Type 0 where
  pub component_id : Option Ident
  pub component_type : Option ComponentType
  pub severity : Option Severity

-- The nullish `??`.
abbrev pub or_else {ℓ} : {A : Type ℓ} → Option A → A → A
or_else (some a) b = a
or_else none b = b

abbrev pub component_types : List ComponentType
component_types = api ∷ mcp_host ∷ cache ∷ queue ∷ rdbms ∷ nosql ∷ []

abbrev pub synthetic_component_slots : ℕ
synthetic_component_slots = 120

abbrev pub severity_mix : ComponentType → List (Severity × ℕ)
severity_mix rdbms = (p0, 70) ∷ (p1, 22) ∷ (p2, 8) ∷ []
severity_mix api = (p0, 12) ∷ (p1, 50) ∷ (p2, 28) ∷ (p3, 10) ∷ []
severity_mix mcp_host = (p0, 12) ∷ (p1, 50) ∷ (p2, 28) ∷ (p3, 10) ∷ []
severity_mix nosql = (p0, 6) ∷ (p1, 46) ∷ (p2, 34) ∷ (p3, 14) ∷ []
severity_mix queue = (p0, 5) ∷ (p1, 45) ∷ (p2, 35) ∷ (p3, 15) ∷ []
severity_mix cache = (p0, 5) ∷ (p1, 15) ∷ (p2, 50) ∷ (p3, 30) ∷ []

-- The loop, from the weights counted so far; past the end, the last entry.
unfoldable pub pick_from : Severity → ℕ → List (Severity × ℕ) → Fraction → Severity
pick_from last cumulative [] roll = last
pick_from last cumulative ((severity, weight) ∷ mix) roll =
    let rest = pick_from severity (cumulative + weight) mix roll in
    if ltb (100 * roll.numerator) ((cumulative + weight) * roll.denominator) then severity else rest

-- No mix is empty, so the `p0` of the start is never drawn.
unfoldable pub pick_severity_for_component_type : ComponentType → Fraction → Severity
unfolding pick_from
pick_severity_for_component_type component_type roll =
    pick_from p0 0 (severity_mix component_type) roll

unfoldable pub ranks_per_type : ℕ
ranks_per_type = max 1 (synthetic_component_slots / length component_types)

-- `(rank + 0.5) / ranksPerType`
unfoldable pub characteristic_roll : ℕ → Fraction
characteristic_roll rank = record { numerator = 2 * rank + 1; denominator = 2 * ranks_per_type }

unfoldable pub slot_type : ℕ → ComponentType
slot_type index =
    or_else (get_elem? component_types (index % synthetic_component_slots % length component_types))
      api

unfoldable pub slot_rank : ℕ → ℕ
unfolding ranks_per_type
slot_rank index = index % synthetic_component_slots / length component_types % ranks_per_type

module _ (uuids : ℕ → Ident) (component_name : ComponentType → ℕ → Ident)
    (synthetic_payload : ℕ → Ident) where
  unfoldable pub generate_synthetic_signal : ℕ → SyntheticOverrides → ℤ → Ident → IngestionSignal
  unfolding slot_type slot_rank pick_severity_for_component_type characteristic_roll
  generate_synthetic_signal index o now correlation_id =
      let component_type = or_else o.component_type (slot_type index) in
      let rank = slot_rank index in
      record {
        signal_id = uuids index;
        component_id = or_else o.component_id (component_name component_type (rank + 1));
        component_type = component_type;
        severity =
            or_else o.severity
              (pick_severity_for_component_type component_type (characteristic_roll rank));
        raw_payload = synthetic_payload index;
        occurred_at = now;
        received_at = now;
        correlation_id = correlation_id;
      }

  -- `Array.from({ length: count })`, from an index on.
  unfoldable pub generate : ℕ → ℕ → SyntheticOverrides → ℤ → Ident → List IngestionSignal
  unfolding generate_synthetic_signal
  generate zero index o now correlation_id = []
  generate (suc count) index o now correlation_id =
      generate_synthetic_signal index o now correlation_id
      ∷ generate count (index + 1) o now correlation_id

  abbrev pub generated : List IngestionSignal → Response
  generated xs = all_accepted (length xs) []

  unfoldable pub handle_bulk_test :
      Option (ℕ × SyntheticOverrides) → ℕ → ℤ → Ident → Server → Server × Response
  unfolding generate receive
  handle_bulk_test none bulk_test_max_count now correlation_id s = (s, bad_bulk_test)
  handle_bulk_test (some (count, o)) bulk_test_max_count now correlation_id s =
      let done = receive s (generate count 0 o now correlation_id) generated in
      if ltb bulk_test_max_count count then (s, bad_bulk_test) else done
