-- ===== src/Store/Postgres/Migrate.antt =====
-- store/postgres/migrate.go: the migrations that are still to run, each in a transaction, under an advisory lock.
pub mod Logs
pub mod Runs
pub mod Again
use helppi_scim_go.Prelude.{ℕ, String, ◌+ₛ◌, Bool, true, false, List, [], ◌∷◌, if◌then◌else◌}
use Prim.Native.String.{compare}
use text.Mathlib.Text.{is_lt}
use helppi_scim_go.Exec.{Exec, Result, ok, err, Error, wrap, context}
use helppi_scim_go.Store.Postgres.Backend.{Backend, Embedded}

abbrev pub migration_lock_key : ℕ
migration_lock_key = 8531204771001

-- `sort.Strings`
unfoldable pub insert_string : String → List String → List String
insert_string s [] = s ∷ []
insert_string s (t ∷ l) =
    let rest = insert_string s l in if is_lt (compare t s) then t ∷ rest else s ∷ t ∷ l

unfoldable pub sort_strings : List String → List String
unfolding insert_string
sort_strings [] = []
sort_strings (s ∷ l) = insert_string s (sort_strings l)

module _ {D : Type 0} (back : Backend D) (embedded : Embedded) where
  unfoldable pub committed : String → Result (Unit {0}) → Exec D (Unit {0})
  committed file (err e) d = (err (wrap ("migrate: commit " +ₛ file) e), d)
  committed file (ok _) d = (ok tt, d)

  unfoldable pub recorded_version : String → Result (Unit {0}) → Exec D (Unit {0})
  unfolding committed
  recorded_version file (err e) d = (err (wrap ("migrate: record " +ₛ file) e), back.rollback d)
  recorded_version file (ok _) d = let (r, d') = back.commit d in committed file r d'

  unfoldable pub ran_body : String → Result (Unit {0}) → Exec D (Unit {0})
  unfolding recorded_version
  ran_body file (err e) d = (err (wrap ("migrate: apply " +ₛ file) e), back.rollback d)
  ran_body file (ok _) d = let (r, d') = back.record_version file d in recorded_version file r d'

  unfoldable pub begun : String → String → Result (Unit {0}) → Exec D (Unit {0})
  unfolding ran_body
  begun file body (err e) d = (err (wrap ("migrate: begin " +ₛ file) e), d)
  begun file body (ok _) d = let (r, d') = back.exec_body body d in ran_body file r d'

  unfoldable pub apply_file : String → Result String → Exec D (Unit {0})
  unfolding begun
  apply_file file (err e) d = (err e, d)
  apply_file file (ok body) d = let (r, d') = back.begin d in begun file body r d'

  unfoldable pub checked_file : String → Result Bool → Exec D (Unit {0})
  unfolding apply_file
  checked_file file (err e) d = (err (wrap ("migrate: check " +ₛ file) e), d)
  checked_file file (ok true) d = (ok tt, d)
  checked_file file (ok false) d = apply_file file (embedded.read_file file) d

  -- One round of the loop.
  unfoldable pub migrate_file : String → Exec D (Unit {0})
  unfolding checked_file
  migrate_file file d = let (r, d') = back.is_applied file d in checked_file file r d'

  unfoldable pub migrate_files : List String → Exec D (Unit {0})
  unfolding migrate_file
  migrate_files [] d = (ok tt, d)
  migrate_files (file ∷ files) d =
      let (r, d') = migrate_file file d in
      elim r [ err e ↦ (err e, d') | ok _ ↦ migrate_files files d' ]

  unfoldable pub with_files : Result (List String) → Exec D (Unit {0})
  unfolding migrate_files sort_strings
  with_files (err e) d = (err e, d)
  with_files (ok files) d = migrate_files (sort_strings files) d

  unfoldable pub with_versions : Result (Unit {0}) → Exec D (Unit {0})
  unfolding with_files
  with_versions (err e) d = (err (wrap "migrate: create schema_migrations" e), d)
  with_versions (ok _) d = with_files embedded.glob d

  -- From the lock taken to the lock freed.
  unfoldable pub locked : Result (Unit {0}) → Exec D (Unit {0})
  unfolding with_versions
  locked (err e) d = (err (wrap "migrate: take lock" e), d)
  locked (ok _) d =
      let (r, d') = back.create_versions d in
      let (q, d'') = with_versions r d' in (q, back.unlock migration_lock_key d'')

  -- From the connection acquired to the connection released.
  unfoldable pub connected : Result (Unit {0}) → Exec D (Unit {0})
  unfolding locked
  connected (err e) d = (err (wrap "migrate: acquire connection" e), d)
  connected (ok _) d =
      let (r, d') = back.take_lock migration_lock_key d in
      let (q, d'') = locked r d' in (q, back.release d'')

  -- `Migrate`
  unfoldable pub migrate : Exec D (Unit {0})
  unfolding connected
  migrate d = let (r, d') = back.acquire d in connected r d'
