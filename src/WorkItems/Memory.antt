-- ===== src/WorkItems/Memory.antt =====
-- A database in memory that has the documented behaviour which WorkItems.antt relies on, for the
-- concrete runs: the tables are association lists, the newest row first.
use inveni_ops.Base.{
  ℕ, ◌≡◌, refl, sym, ap, ◌≢◌, inl, inr, Bool, true, false, List, ◌∷◌, Option, none, some, ◌==◌,
  ==_iff, if◌then◌else◌, Bool-cases, ◌≤◌, ◌<◌, leb, arith,
}
use mathlib.Core.Bool.{false≢true}
use inveni_ops.Base.Int.{pos}
use inveni_ops.Types.{Ident, WorkItemStateName, same_state, same_state_iff}
use inveni_ops.Retry.{Result, ok, err}
use inveni_ops.Postgres.{PgError, unique_violation, prisma, PrismaError, other_error}
use inveni_ops.WorkItems.{
  WorkItem, RcaRow, StateTransition, StateChange, apply_change, Database, Lawful,
}

pub record Tables : Type 0 where
  pub items : Ident → Option WorkItem
  pub rcas : Ident → Option RcaRow
  pub trail : List StateTransition

abbrev put : {A : Type 0} → (Ident → Option A) → Ident → A → Ident → Option A
put f i a j = if i == j then some a else f j

abbrev change_if_matching : Tables → Ident → StateChange → Bool → WorkItem → Tables × ℕ
change_if_matching t i c true w = (record t { items = put t.items i (apply_change c (pos 0) w) }, 1)
change_if_matching t i c false w = (t, 0)

abbrev update : Tables → Ident → WorkItemStateName → StateChange → Tables × ℕ
update t i s c = elim (t.items i) [
  | none ↦ (t, 0)
  | some w ↦ change_if_matching t i c (same_state w.state s) w
]

abbrev insert : Tables → RcaRow → Result PgError Tables
insert t r =
    if leb 2147483648 r.mttr_seconds
    then err (prisma other_error)
    else elim (t.rcas r.work_item_id) [
      | some s ↦ err unique_violation
      | none ↦ ok (record t { rcas = put t.rcas r.work_item_id r })
    ]

abbrev pub memory : Database
memory = record {
  Db = Tables;
  item = λ t. t.items;
  rca = λ t. t.rcas;
  trail = λ t. t.trail;
  clock = λ t. pos 0;
  update_where = update;
  create_transition = λ t row. record t { trail = row ∷ t.trail };
  create_rca = insert;
}

put-same : {A : Type 0} (f : Ident → Option A) (i : Ident) (a : A) → put f i a i ≡ some a
put-same f i a = rw ((==_iff i i).1 refl) refl

put-other : {A : Type 0} (f : Ident → Option A) (i j : Ident) (a : A) → i ≢ j → put f i a j ≡ f j
put-other f i j a apart = elim (Bool-cases (i == j)) [
  | inl e ↦ absurd (apart ((==_iff i j).0 e))
  | inr e ↦ rw e refl
]

-- The three facts about `update` for a row that is there, told with the test on its state.
changed :
    (t : Tables) (i : Ident) (c : StateChange) (b : Bool) (w : WorkItem)
    → b ≡ true
    → ((change_if_matching t i c b w).1 ≡ 1)
      × ((change_if_matching t i c b w).0.items i ≡ some (apply_change c (pos 0) w))
changed t i c true w h = (refl, put-same t.items i _)
changed t i c false w h = absurd (false≢true h)

unchanged :
    (t : Tables) (i : Ident) (c : StateChange) (b : Bool) (w : WorkItem)
    → b ≡ false
    → (change_if_matching t i c b w).1 ≡ 0
unchanged t i c true w h = absurd (false≢true (sym h))
unchanged t i c false w h = refl

elsewhere :
    (t : Tables) (i j : Ident) (c : StateChange) (b : Bool) (w : WorkItem)
    → i ≢ j
    → (change_if_matching t i c b w).0.items j ≡ t.items j
elsewhere t i j c true w apart = put-other t.items i j _ apart
elsewhere t i j c false w apart = refl

rest_kept :
    (t : Tables) (i : Ident) (c : StateChange) (b : Bool) (w : WorkItem)
    → ((change_if_matching t i c b w).0.rcas ≡ t.rcas)
      × ((change_if_matching t i c b w).0.trail ≡ t.trail)
rest_kept t i c true w = (refl, refl)
rest_kept t i c false w = (refl, refl)

same_state-false : (a b : WorkItemStateName) → a ≢ b → same_state a b ≡ false
same_state-false a b apart = elim (Bool-cases (same_state a b)) [
  | inl e ↦ absurd (apart ((same_state_iff a b).0 e))
  | inr e ↦ e
]

update-miss :
    (t : Tables) (i : Ident) (s : WorkItemStateName) (c : StateChange) (o : Option WorkItem)
    → t.items i ≡ o
    → ((w : WorkItem) → t.items i ≡ some w → w.state ≢ s)
    → (update t i s c).1 ≡ 0
update-miss t i s c none found miss = rw (update, found) refl
update-miss t i s c (some w) found miss =
    rw (update, found) (unchanged t i c _ w (same_state-false w.state s (miss w found)))

update-other :
    (t : Tables) (i j : Ident) (s : WorkItemStateName) (c : StateChange) (o : Option WorkItem)
    → t.items i ≡ o
    → i ≢ j
    → (update t i s c).0.items j ≡ t.items j
update-other t i j s c none found apart = rw (update, found) refl
update-other t i j s c (some w) found apart = rw (update, found) (elsewhere t i j c _ w apart)

update-rest :
    (t : Tables) (i : Ident) (s : WorkItemStateName) (c : StateChange) (o : Option WorkItem)
    → t.items i ≡ o
    → ((update t i s c).0.rcas ≡ t.rcas) × ((update t i s c).0.trail ≡ t.trail)
update-rest t i s c none found = rw (update, found) (refl, refl)
update-rest t i s c (some w) found = rw (update, found) (rest_kept t i c _ w)

update-hit :
    (t : Tables) (i : Ident) (s : WorkItemStateName) (c : StateChange) (w : WorkItem)
    → t.items i ≡ some w
    → w.state ≡ s
    → ((update t i s c).1 ≡ 1) × ((update t i s c).0.items i ≡ some (apply_change c (pos 0) w))
update-hit t i s c w found same =
    rw (update, found) (changed t i c _ w ((same_state_iff w.state s).1 same))

insert-too_large :
    (t : Tables) (r : RcaRow)
    → 2147483648 ≤ r.mttr_seconds
    → (e : PrismaError) × (insert t r ≡ err (prisma e))
insert-too_large t r large =
    let over : leb 2147483648 r.mttr_seconds ≡ true = ground arith in
    (other_error, rw (insert, over) refl)

insert-taken :
    (t : Tables) (r s : RcaRow)
    → r.mttr_seconds < 2147483648
    → t.rcas r.work_item_id ≡ some s
    → insert t r ≡ err unique_violation
insert-taken t r s small taken =
    let fits : leb 2147483648 r.mttr_seconds ≡ false = ground arith in rw (insert, fits, taken) refl

insert-free :
    (t : Tables) (r : RcaRow)
    → r.mttr_seconds < 2147483648
    → t.rcas r.work_item_id ≡ none
    → insert t r ≡ ok (record t { rcas = put t.rcas r.work_item_id r })
insert-free t r small free =
    let fits : leb 2147483648 r.mttr_seconds ≡ false = ground arith in rw (insert, fits, free) refl

-- What the repository relies on is satisfiable: the database in memory has it.
pub memory-Lawful : Lawful memory
memory-Lawful = record {
  update_hit = update-hit;
  update_miss = λ t i s c miss. update-miss t i s c (t.items i) refl miss;
  update_other = λ t i j s c apart. update-other t i j s c (t.items i) refl apart;
  update_rca = λ t i j s c. ap (λ f. f j) (update-rest t i s c (t.items i) refl).0;
  update_trail = λ t i s c. (update-rest t i s c (t.items i) refl).1;
  transition_item = λ t row j. refl;
  transition_rca = λ t row j. refl;
  transition_trail = λ t row. refl;
  rca_too_large = λ t r large. insert-too_large t r large;
  rca_taken = λ t r s small taken. insert-taken t r s small taken;
  rca_stored = λ t r small free. (
    record t { rcas = put t.rcas r.work_item_id r },
    insert-free t r small free,
    put-same t.rcas r.work_item_id r,
    λ j. refl,
    λ j apart. put-other t.rcas r.work_item_id j r apart,
    refl,
  );
}
