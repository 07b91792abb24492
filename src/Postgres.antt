-- ===== src/Postgres.antt =====
-- backend/src/repositories/postgres/{prismaErrors,withPostgresRetry,errors}.ts: a call of the database
-- that is tried again after a transient error. What the database and the network do to each try is
-- not this program's code: it is a script of faults, the first try's first, and a try past its end
-- is answered. Other writers run while the call waits: `others` is what they do before a try of the
-- script, by the length of the rest of it.
pub mod Tried
use inveni_ops.Base.{ℕ, Bool, true, false, List, [], ◌∷◌, Option, none, length, ◌||◌}
use inveni_ops.Types.{Ident, WorkItemStateName}
use inveni_ops.Text.{Text, units, same_text}
use inveni_ops.Retry.{Result, ok, err, RetryOptions, RetryError, Outcome, retry}

-- What the client library throws for the database's or the network's own reasons.
pub data PrismaError : Type 0 where
  initialization_error : PrismaError
  known_request_error : Text → PrismaError
  other_error : PrismaError

-- Why a call of the repository fails. The first is `OptimisticConcurrencyError`, the next two are the
-- codes P2002 and P2025.
pub data PgError : Type 0 where
  optimistic_concurrency : Ident → WorkItemStateName → PgError
  unique_violation : PgError
  not_found : PgError
  prisma : PrismaError → PgError

abbrev pub transient_error_codes : List Text
transient_error_codes =
    units "P1001"
    ∷ units "P1002"
    ∷ units "P1008"
    ∷ units "P1017"
    ∷ units "P2024"
    ∷ units "P2034"
    ∷ []

unfoldable pub has_code : List Text → Text → Bool
has_code [] code = false
has_code (c ∷ cs) code = same_text c code || has_code cs code

unfoldable pub is_transient_prisma_error : PgError → Bool
unfolding has_code
is_transient_prisma_error (prisma initialization_error) = true
is_transient_prisma_error (prisma (known_request_error code)) = has_code transient_error_codes code
is_transient_prisma_error _ = false

abbrev pub postgres_retry_options : RetryOptions PgError
postgres_retry_options = record {
  attempts = 3;
  base_delay_ms = 50;
  max_delay_ms = none;
  should_retry = is_transient_prisma_error;
}

-- A try is answered; or refused, with nothing written; or done, and its answer lost.
pub data Fault : Type 0 where
  answered : Fault
  refused : PrismaError → Fault
  lost : PrismaError → Fault

module _ {Db A : Type 0} (others : ℕ → Db → Db) (fn : Db → Db × Result PgError A) where
  abbrev pub lose_answer : PrismaError → Db × Result PgError A → Db × Result PgError A
  lose_answer e (db, r) = (db, err (prisma e))

  abbrev pub try_once : Fault → Db → Db × Result PgError A
  try_once answered db = fn db
  try_once (refused e) db = (db, err (prisma e))
  try_once (lost e) db = lose_answer e (fn db)

  abbrev pub with_script : List Fault → Db × Result PgError A → (Db × List Fault) × Result PgError A
  with_script fs (db, r) = ((db, fs), r)

  abbrev pub next_try : Db × List Fault → (Db × List Fault) × Result PgError A
  next_try (db, []) = with_script [] (fn db)
  next_try (db, f ∷ fs) = with_script fs (try_once f (others (length fs) db))

  abbrev pub without_script :
      Outcome (Db × List Fault) PgError A → Db × Result (RetryError PgError) A
  without_script ((db, fs), r, delays) = (db, r)

  unfoldable pub with_postgres_retry : List Fault → Db → Db × Result (RetryError PgError) A
  with_postgres_retry fs db = without_script (retry postgres_retry_options next_try (db, fs))
