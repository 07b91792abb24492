-- ===== src/Types.antt =====
-- The enumerations of backend/prisma/schema.prisma that every component shares, with the unions
-- of backend/src/domain/alerting/types.ts and backend/src/domain/state/types.ts that repeat them.
use inveni_ops.Base.{ℕ, ◌≡◌, ◌==◌, ◌↔◌, Bool, true, arith}

-- An identifier (a UUID, a component's name, an actor) that the code only compares for equality.
abbrev pub Ident : Type 0
Ident = ℕ

pub data Severity : Type 0 where
  p0 p1 p2 p3 : Severity

pub data ComponentType : Type 0 where
  api mcp_host cache queue rdbms nosql : ComponentType

-- OPEN, INVESTIGATING, RESOLVED, CLOSED (`open` is a word of the language).
pub data WorkItemStateName : Type 0 where
  opened investigating resolved closed : WorkItemStateName

-- SEVERITY_RANK, which severity.ts and dashboardCache.ts both declare.
abbrev pub severity_rank : Severity → ℕ
severity_rank p0 = 0
severity_rank p1 = 1
severity_rank p2 = 2
severity_rank p3 = 3

abbrev pub state_index : WorkItemStateName → ℕ
state_index opened = 0
state_index investigating = 1
state_index resolved = 2
state_index closed = 3

-- `===` on the two enumerations.
abbrev pub same_state : WorkItemStateName → WorkItemStateName → Bool
same_state a b = state_index a == state_index b

abbrev pub same_severity : Severity → Severity → Bool
same_severity a b = severity_rank a == severity_rank b

pub same_state_iff : (a b : WorkItemStateName) → (same_state a b ≡ true) ↔ (a ≡ b)
same_state_iff a b = (λ h. ground arith, λ h. ground arith)

pub same_severity_iff : (a b : Severity) → (same_severity a b ≡ true) ↔ (a ≡ b)
same_severity_iff a b = (λ h. ground arith, λ h. ground arith)
