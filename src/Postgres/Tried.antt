-- ===== src/Postgres/Tried.antt =====
-- What a call under withPostgresRetry (backend/src/repositories/postgres/withPostgresRetry.ts) can
-- come to, whatever happens to its tries.
use mathlib.Core.List.{Memᴰ}
use mathlib.Core.List.Memᴰ.{head, tail}
use inveni_ops.Base.{ℕ, ◌≡◌, refl, subst, arith, ◌⊎◌, inl, inr, List, [], ◌∷◌, length}
use inveni_ops.Retry.{Result, ok, err, RetryError, thrown, Outcome, retry}
use inveni_ops.Retry.Keeps.{Ending, success, failure, retry_ends}
use inveni_ops.Postgres.{
  PrismaError, PgError, prisma, Fault, answered, refused, lost, postgres_retry_options, try_once,
  with_script, next_try, without_script, with_postgres_retry,
}

-- A fault of the script raises `e`.
abbrev pub Raised : List Fault → PrismaError → Type 0
Raised fs e = Memᴰ (refused e) fs ⊎ Memᴰ (lost e) fs

module _ {Db A : Type 0} (others : ℕ → Db → Db) (fn : Db → Db × Result PgError A) where
  -- What the database can be when a try begins: other writers and earlier tries have run, each of
  -- these as a whole.
  pub data Tried (db : Db) : Db → Type 0 where
    untouched : Tried db db
    meanwhile : (later : Db) (n : ℕ) → Tried db later → Tried db (others n later)
    unheard : (later : Db) → Tried db later → Tried db (fn later).0

  abbrev pub throwing : Db × Result PgError A → Db × Result (RetryError PgError) A
  throwing (db, ok a) = (db, ok a)
  throwing (db, err e) = (db, err (thrown e))

  -- The answer is that of a try; or it is an error of the script, and no try has been heard of.
  pub data Ended (fs : List Fault) (db : Db) : Db × Result (RetryError PgError) A → Type 0 where
    heard : (later : Db) → Tried db later → Ended fs db (throwing (fn later))
    failed :
        (later : Db) (e : PrismaError)
        → Tried db later
        → Raised fs e
        → Ended fs db (later, err (thrown (prisma e)))

  -- The end of a call whose script began as `fs`, with what is left of the script.
  abbrev ScriptEnded : List Fault → Db → (Db × List Fault) × Result (RetryError PgError) A → Type 0
  ScriptEnded fs db ((db', rest), r) = Ended fs db (db', r)

  abbrev Going : List Fault → Db → Db × List Fault → Type 0
  Going fs db (later, rest) = Tried db later × ((f : Fault) → Memᴰ f rest → Memᴰ f fs)

  heard-Ending :
      (fs rest : List Fault) (db later : Db)
      → Tried db later
      → ((f : Fault) → Memᴰ f rest → Memᴰ f fs)
      → (r : Db × Result PgError A) → fn later ≡ r
      → Ending (Going fs db) (ScriptEnded fs db) (with_script others fn rest r)
  heard-Ending fs rest db later so_far kept (db', ok a) e =
      success (db', rest) a (subst (λ r. Ended fs db (throwing r)) e (heard later so_far))
  heard-Ending fs rest db later so_far kept (db', err x) e =
      failure (db', rest) x (subst (λ r. Tried db r.0) e (unheard later so_far), kept)
        (subst (λ r. Ended fs db (throwing r)) e (heard later so_far))

  fault-Ending :
      (fs rest : List Fault) (db later : Db) (f : Fault)
      → Tried db later
      → ((g : Fault) → Memᴰ g (f ∷ rest) → Memᴰ g fs)
      → Ending
          (Going fs db)
          (ScriptEnded fs db)
          (with_script others fn rest (try_once others fn f later))
  fault-Ending fs rest db later answered so_far kept =
      heard-Ending fs rest db later so_far (λ g m. kept g (tail m)) (fn later) refl
  fault-Ending fs rest db later (refused e) so_far kept =
      failure (later, rest) (prisma e) (so_far, λ g m. kept g (tail m))
        (failed later e so_far (inl (kept (refused e) (head refl))))
  fault-Ending fs rest db later (lost e) so_far kept =
      failure ((fn later).0, rest) (prisma e) (unheard later so_far, λ g m. kept g (tail m))
        (failed (fn later).0 e (unheard later so_far) (inr (kept (lost e) (head refl))))

  next_try-Ending :
      (fs : List Fault) (db : Db) (s : Db × List Fault)
      → Going fs db s
      → Ending (Going fs db) (ScriptEnded fs db) (next_try others fn s)
  next_try-Ending fs db (later, []) (so_far, kept) =
      heard-Ending fs [] db later so_far kept (fn later) refl
  next_try-Ending fs db (later, f ∷ rest) (so_far, kept) =
      fault-Ending fs rest db (others (length rest) later) f (meanwhile later (length rest) so_far)
        kept

  from_script :
      (fs : List Fault) (db : Db) (out : Outcome (Db × List Fault) PgError A)
      → ScriptEnded fs db (out.0, out.1)
      → Ended fs db (without_script others fn out)
  from_script fs db ((db', rest), r, delays) h = h

  pub with_postgres_retry-Ended :
      (fs : List Fault) (db : Db) → Ended fs db (with_postgres_retry others fn fs db)
  unfolding with_postgres_retry
  with_postgres_retry-Ended fs db =
      from_script fs db (retry postgres_retry_options (next_try others fn) (db, fs)) (
        retry_ends postgres_retry_options (next_try others fn) (Going fs db) (ScriptEnded fs db)
          (next_try-Ending fs db) (db, fs) (omega arith) (untouched, λ f m. m))

  -- What other writers and each whole run of the call keep, a call under the wrapper keeps.
  module _ (P : Db → Type 0) (kept : (n : ℕ) (db : Db) → P db → P (others n db))
      (kept_by_fn : (db : Db) → P db → P (fn db).0) where
    pub Tried-kept : (db later : Db) → Tried db later → P db → P later
    Tried-kept db _ untouched p = p
    Tried-kept db _ (meanwhile later n so_far) p = kept n later (Tried-kept db later so_far p)
    Tried-kept db _ (unheard later so_far) p = kept_by_fn later (Tried-kept db later so_far p)
