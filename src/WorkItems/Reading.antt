-- ===== src/WorkItems/Reading.antt =====
-- findById of backend/src/repositories/postgres/workItemRepository.ts.
use inveni_ops.Base.{ℕ, ◌≡◌, refl, ap, ◌⊎◌, inl, inr, List, Option}
use inveni_ops.Types.{Ident}
use inveni_ops.Retry.{Result, ok, err, RetryError, thrown}
use inveni_ops.Postgres.{PgError, PrismaError, Fault, prisma}
use inveni_ops.Postgres.Tried.{
  Tried, Ended, heard, failed, Raised, with_postgres_retry-Ended, Tried-kept,
}
use inveni_ops.WorkItems.{Database, WorkItem, read_item, find_by_id}

module _ (d : Database) where
  open d use {Db, item}

  abbrev idle : ℕ → Db → Db
  idle n db = db

  read_same : (i : Ident) (db later : Db) → Tried idle (read_item d i) db later → later ≡ db
  read_same i db later so_far =
      Tried-kept idle (read_item d i) (λ v. v ≡ db) (λ n v e. e) (λ v e. e) db later so_far refl

  -- What a read answers.
  abbrev pub Read : List Fault → Db → Ident → Result (RetryError PgError) (Option WorkItem) → Type 0
  Read faults db i r =
      (r ≡ ok (item db i)) ⊎ ((e : PrismaError) × Raised faults e × (r ≡ err (thrown (prisma e))))

  Ended-Read :
      (faults : List Fault) (db : Db) (i : Ident)
      (r : Db × Result (RetryError PgError) (Option WorkItem))
      → Ended idle (read_item d i) faults db r
      → Read faults db i r.1
  Ended-Read faults db i _ (heard later so_far) =
      inl (ap (λ v. ok (item v i)) (read_same i db later so_far))
  Ended-Read faults db i _ (failed later e so_far raised) = inr (e, raised, refl)

  -- The row, or an error that the database or the network raised.
  pub find_by_id-Read :
      (faults : List Fault) (db : Db) (i : Ident) → Read faults db i (find_by_id d faults db i)
  unfolding find_by_id
  find_by_id-Read faults db i =
      Ended-Read faults db i _ (with_postgres_retry-Ended idle (read_item d i) faults db)
