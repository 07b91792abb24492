-- ===== src/Buffer/Ring.antt =====
-- RingBuffer of backend/src/services/ingestion/buffer.ts: a preallocated array with a head index
-- and a count. A slot that is `undefined` is `none`.
pub mod Laws
use mathlib.Core.List.{reverse}
use inveni_ops.Base.{
  ℕ, zero, suc, ◌+◌, ◌-◌, ◌%◌, ◌==◌, if◌then◌else◌, Bool, true, false, List, [], ◌∷◌, Option, none,
  some, min, get_elem?, set, replicate,
}

pub record Ring {ℓ} (A : Type ℓ) : Type ℓ where
  pub capacity : ℕ
  pub slots : List (Option A)
  pub head : ℕ
  pub count : ℕ

-- `slots[i]`, with `undefined` out of range.
abbrev slot {ℓ} : {A : Type ℓ} → List (Option A) → ℕ → Option A
slot slots i = elim (get_elem? slots i) [ none ↦ none | some s ↦ s ]

module _ {ℓ} {A : Type ℓ} where
  unfoldable pub create : ℕ → Ring A
  create capacity = record {
    capacity = capacity;
    slots = replicate capacity none;
    head = 0;
    count = 0;
  }

  abbrev pub size : Ring A → ℕ
  size r = r.count

  pub push : Ring A → A → Ring A × Bool
  push r item = if r.count == r.capacity then (r, false) else (
    record r {
      slots = set r.slots ((r.head + r.count) % r.capacity) (some item);
      count = r.count + 1;
    },
    true,
  )

  pub pop_oldest : Ring A → Option A × Ring A
  pop_oldest r = if r.count == 0 then (none, r) else (
    slot r.slots r.head,
    record r {
      slots = set r.slots r.head none;
      head = (r.head + 1) % r.capacity;
      count = r.count - 1;
    },
  )

  abbrev kept : Option A → List A → List A
  kept none rest = rest
  kept (some x) rest = x ∷ rest

  -- The n rounds of popBatch's loop; a slot that is `undefined` is not passed on.
  pop_rounds : ℕ → Ring A → List A × Ring A
  pop_rounds zero r = ([], r)
  pop_rounds (suc n) r =
      let (item, r1) = pop_oldest r in let (rest, r2) = pop_rounds n r1 in (kept item rest, r2)

  pub pop_batch : Ring A → ℕ → List A × Ring A
  pop_batch r max_items = pop_rounds (min max_items r.count) r
