-- ===== src/WorkItems.antt =====
-- backend/src/repositories/postgres/workItemRepository.ts: the guarded writes to the tables of
-- backend/prisma/schema.prisma. The database is not this program's code: it is a parameter, an
-- interface of the statements that the repository issues with what it relies on of each.
pub mod Transitions
pub mod Closing
pub mod Reading
pub mod Memory
use inveni_ops.Base.{
  ℕ, zero, suc, ◌+◌, ◌≡◌, ◌≢◌, ◌≤◌, ◌<◌, Bool, true, false, List, [], ◌∷◌, Option, none, some,
  if◌then◌else◌, ◌==◌,
}
use inveni_ops.Base.Int.{ℤ}
use inveni_ops.Types.{
  Ident, Severity, ComponentType, WorkItemStateName, opened, resolved, closed, same_state,
}
use inveni_ops.Text.{Text}
use inveni_ops.Retry.{Result, ok, err, RetryError}
use inveni_ops.Postgres.{
  PgError, optimistic_concurrency, unique_violation, not_found, prisma, PrismaError, Fault,
  with_postgres_retry,
}

pub record WorkItem : Type 0 where
  pub id : Ident
  pub component_id : Ident
  pub component_type : ComponentType
  pub severity : Severity
  pub state : WorkItemStateName
  pub title : Ident
  pub first_signal_at : ℤ
  pub resolved_at : Option ℤ
  pub closed_at : Option ℤ
  pub signal_count : ℕ
  pub created_at : ℤ
  pub updated_at : ℤ

pub record RcaRow : Type 0 where
  pub work_item_id : Ident
  pub incident_start_time : ℤ
  pub incident_end_time : ℤ
  pub root_cause_category : Text
  pub root_cause_description : Text
  pub fix_applied : Text
  pub prevention_steps : Text
  pub mttr_seconds : ℕ
  pub submitted_at : ℤ

pub record StateTransition : Type 0 where
  pub work_item_id : Ident
  pub from_state : WorkItemStateName
  pub to_state : WorkItemStateName
  pub actor : Ident

-- `data` of an update: the new state and the dates that the caller sets with it.
pub record StateChange : Type 0 where
  pub state : WorkItemStateName
  pub resolved_at : Option ℤ
  pub closed_at : Option ℤ

abbrev pub or_kept : Option ℤ → Option ℤ → Option ℤ
or_kept none old = old
or_kept (some t) old = some t

-- `updatedAt` is set by the client library on every update.
abbrev pub apply_change : StateChange → ℤ → WorkItem → WorkItem
apply_change c stamp w = record w {
  state = c.state;
  resolved_at = or_kept c.resolved_at w.resolved_at;
  closed_at = or_kept c.closed_at w.closed_at;
  updated_at = stamp;
}

-- What the repository relies on. `item` and `rca` read by primary and by unique key, `trail` is the
-- audit table, newest row first, and `clock` the stamp that the next update sets.
pub record Database : Type 1 where
  pub Db : Type 0
  pub item : Db → Ident → Option WorkItem
  pub rca : Db → Ident → Option RcaRow
  pub trail : Db → List StateTransition
  pub clock : Db → ℤ
  -- updateMany({ where: { id, state }, data }) with the count that it returns.
  pub update_where : Db → Ident → WorkItemStateName → StateChange → Db × ℕ
  pub create_transition : Db → StateTransition → Db
  -- rcaRecord.create.
  pub create_rca : Db → RcaRow → Result PgError Db

-- The documented behaviour of those statements.
module _ (d : Database) where
  open d use {Db, item, rca, trail, clock, update_where, create_transition, create_rca}

  pub record Lawful : Type 0 where
    pub update_hit :
        (db : Db) (i : Ident) (s : WorkItemStateName) (c : StateChange) (w : WorkItem)
        → item db i ≡ some w
        → w.state ≡ s
        → ((update_where db i s c).1 ≡ 1)
          × (item (update_where db i s c).0 i ≡ some (apply_change c (clock db) w))
    pub update_miss :
        (db : Db) (i : Ident) (s : WorkItemStateName) (c : StateChange)
        → ((w : WorkItem) → item db i ≡ some w → w.state ≢ s)
        → (update_where db i s c).1 ≡ 0
    pub update_other :
        (db : Db) (i j : Ident) (s : WorkItemStateName) (c : StateChange)
        → i ≢ j
        → item (update_where db i s c).0 j ≡ item db j
    pub update_rca :
        (db : Db) (i j : Ident) (s : WorkItemStateName) (c : StateChange)
        → rca (update_where db i s c).0 j ≡ rca db j
    pub update_trail :
        (db : Db) (i : Ident) (s : WorkItemStateName) (c : StateChange)
        → trail (update_where db i s c).0 ≡ trail db
    pub transition_item :
        (db : Db) (t : StateTransition) (j : Ident) → item (create_transition db t) j ≡ item db j
    pub transition_rca :
        (db : Db) (t : StateTransition) (j : Ident) → rca (create_transition db t) j ≡ rca db j
    pub transition_trail :
        (db : Db) (t : StateTransition) → trail (create_transition db t) ≡ t ∷ trail db
    -- mttr_seconds is an INTEGER column: a time that does not fit is refused before all else, and
    -- then a second RCA of a work item is.
    pub rca_too_large :
        (db : Db) (r : RcaRow)
        → 2147483648 ≤ r.mttr_seconds
        → (e : PrismaError) × (create_rca db r ≡ err (prisma e))
    pub rca_taken :
        (db : Db) (r s : RcaRow)
        → r.mttr_seconds < 2147483648
        → rca db r.work_item_id ≡ some s
        → create_rca db r ≡ err unique_violation
    pub rca_stored :
        (db : Db) (r : RcaRow)
        → r.mttr_seconds < 2147483648
        → rca db r.work_item_id ≡ none
        → (db' : Db) × (create_rca db r ≡ ok db')
          × (rca db' r.work_item_id ≡ some r)
          × ((j : Ident) → item db' j ≡ item db j)
          × ((j : Ident) → r.work_item_id ≢ j → rca db' j ≡ rca db j)
          × (trail db' ≡ trail db)

pub record TransitionStateInput : Type 0 where
  pub work_item_id : Ident
  pub from_state : WorkItemStateName
  pub to_state : WorkItemStateName
  pub actor : Ident
  pub resolved_at : Option ℤ
  pub closed_at : Option ℤ

-- What the caller says of the incident; the repository adds the rest of the row.
pub record RcaFields : Type 0 where
  pub incident_start_time : ℤ
  pub incident_end_time : ℤ
  pub root_cause_category : Text
  pub root_cause_description : Text
  pub fix_applied : Text
  pub prevention_steps : Text

pub record SubmitRcaInput : Type 0 where
  pub work_item_id : Ident
  pub actor : Ident
  pub rca : RcaFields
  pub mttr_seconds : ℕ
  pub now : ℤ

-- The two rows that a guarded transition writes.
abbrev pub change_of : TransitionStateInput → StateChange
change_of input = record {
  state = input.to_state;
  resolved_at = input.resolved_at;
  closed_at = input.closed_at;
}

abbrev pub audit_row : TransitionStateInput → StateTransition
audit_row input = record {
  work_item_id = input.work_item_id;
  from_state = input.from_state;
  to_state = input.to_state;
  actor = input.actor;
}

-- The transition that submitRca makes.
abbrev pub closing_input : SubmitRcaInput → TransitionStateInput
closing_input input = record {
  work_item_id = input.work_item_id;
  from_state = resolved;
  to_state = closed;
  actor = input.actor;
  resolved_at = none;
  closed_at = some input.now;
}

-- The RCA row that submitRca creates.
abbrev pub rca_row : SubmitRcaInput → RcaRow
rca_row input = record {
  work_item_id = input.work_item_id;
  incident_start_time = input.rca.incident_start_time;
  incident_end_time = input.rca.incident_end_time;
  root_cause_category = input.rca.root_cause_category;
  root_cause_description = input.rca.root_cause_description;
  fix_applied = input.rca.fix_applied;
  prevention_steps = input.rca.prevention_steps;
  mttr_seconds = input.mttr_seconds;
  submitted_at = input.now;
}

module _ (d : Database) where
  open d use {Db, item, update_where, create_transition, create_rca}

  -- What runs in a transaction: the database that it has written so far, or the error that it threw.
  abbrev Tx : Type 0 → Type 0
  Tx A = Result PgError (Db × A)

  infixl 5 ◌>>=◌
  abbrev ◌>>=◌ : {A B : Type 0} → Tx A → (Db × A → Tx B) → Tx B
  ok a >>= f = f a
  err e >>= f = err e

  -- $transaction: an error that is thrown rolls every write back.
  abbrev pub commit : {A : Type 0} → Db → Tx A → Db × Result PgError A
  commit db (ok (db', a)) = (db', ok a)
  commit db (err e) = (db, err e)

  pub apply_guarded_transition : Db → TransitionStateInput → Tx (Unit {0})
  apply_guarded_transition db input =
      let (db', count) = update_where db input.work_item_id input.from_state (change_of input) in
      if count == 0
      then err (optimistic_concurrency input.work_item_id input.from_state)
      else ok (create_transition db' (audit_row input), tt)

  pub find_unique_or_throw : Db → Ident → Tx WorkItem
  find_unique_or_throw db i = elim (item db i) [ none ↦ err not_found | some w ↦ ok (db, w) ]

  unfoldable pub transition_once : TransitionStateInput → Db → Db × Result PgError WorkItem
  unfolding apply_guarded_transition find_unique_or_throw
  transition_once input db =
      commit db
        (apply_guarded_transition db input >>= λ p. find_unique_or_throw p.0 input.work_item_id)

  pub insert_rca : Db → RcaRow → Tx (Unit {0})
  insert_rca db r = elim (create_rca db r) [ err e ↦ err e | ok db' ↦ ok (db', tt) ]

  unfoldable pub submit_once : SubmitRcaInput → Db → Db × Result PgError WorkItem
  unfolding apply_guarded_transition find_unique_or_throw insert_rca
  submit_once input db = commit db (
      apply_guarded_transition db (closing_input input) >>= λ p.
      insert_rca p.0 (rca_row input) >>= λ q. find_unique_or_throw q.0 input.work_item_id)

  -- The public operations: each is a transaction, or a read, that is tried again after a transient
  -- error.
  module _ (others : ℕ → Db → Db) where
    unfoldable pub transition_state :
        List Fault → Db → TransitionStateInput → Db × Result (RetryError PgError) WorkItem
    transition_state faults db input = with_postgres_retry others (transition_once input) faults db

    unfoldable pub submit_rca :
        List Fault → Db → SubmitRcaInput → Db × Result (RetryError PgError) WorkItem
    submit_rca faults db input = with_postgres_retry others (submit_once input) faults db

  abbrev pub read_item : Ident → Db → Db × Result PgError (Option WorkItem)
  read_item i db = (db, ok (item db i))

  -- A read leaves the database as it is: `db` is the one that its last try finds.
  unfoldable pub find_by_id :
      List Fault → Db → Ident → Result (RetryError PgError) (Option WorkItem)
  find_by_id faults db i = (with_postgres_retry (λ n later. later) (read_item i) faults db).1

  -- The escalation's row on the audit trail; the state stays as it is.
  pub record_escalation : Db → Ident → Ident → Db
  record_escalation db i actor =
      create_transition db
        (record { work_item_id = i; from_state = opened; to_state = opened; actor = actor })
