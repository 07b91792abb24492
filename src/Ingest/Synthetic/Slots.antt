-- ===== src/Ingest/Synthetic/Slots.antt =====
-- The components that the bulk test of backend/src/api/routes/signals.ts generates.
use inveni_ops.Base.{ℕ, ◌/◌, ◌%◌, ◌≡◌, ◌↔◌, refl, suc, zero, get_elem?, ◌<◌, ap, arith}
use inveni_ops.Types.{ComponentType, api, mcp_host, cache, queue, rdbms, nosql}
use inveni_ops.Ingest.Synthetic.{slot_type, slot_rank, ranks_per_type, or_else, component_types}

abbrev type_index : ComponentType → ℕ
type_index api = 0
type_index mcp_host = 1
type_index cache = 2
type_index queue = 3
type_index rdbms = 4
type_index nosql = 5

slot_rank_lem : (i : ℕ) → slot_rank i ≡ i % 120 / 6
unfolding slot_rank ranks_per_type
slot_rank_lem i = omega arith

nth_type : (n : ℕ) → n < 6 → type_index (or_else (get_elem? component_types n) api) ≡ n
nth_type zero h = refl
nth_type (suc zero) h = refl
nth_type (suc (suc zero)) h = refl
nth_type (suc (suc (suc zero))) h = refl
nth_type (suc (suc (suc (suc zero)))) h = refl
nth_type (suc (suc (suc (suc (suc zero))))) h = refl
nth_type (suc (suc (suc (suc (suc (suc n)))))) h = absurd (omega (arith, h))

type_index-slot_type : (i : ℕ) → type_index (slot_type i) ≡ i % 120 % 6
unfolding slot_type
type_index-slot_type i = nth_type (i % 120 % 6) (omega arith)

-- Two generated signals name the same component, by its type and its rank, if and only if their
-- indices are the same up to a multiple of 120: there are as many components as slots.
pub same_component_iff :
    (i j : ℕ) → ((slot_type i ≡ slot_type j) × (slot_rank i ≡ slot_rank j)) ↔ (i % 120 ≡ j % 120)
unfolding slot_type slot_rank
same_component_iff i j = (
  λ (types, ranks). omega (
    arith,
    type_index-slot_type i,
    type_index-slot_type j,
    ap type_index types,
    slot_rank_lem i,
    slot_rank_lem j,
    ranks,
  ),
  λ e. (
    ap (λ n. or_else (get_elem? component_types (n % 6)) api) e,
    ap (λ n. n / 6 % ranks_per_type) e,
  ),
)
