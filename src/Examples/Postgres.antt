-- ===== src/Examples/Postgres.antt =====
-- The theorems on the PostgreSQL store, its migrations and its lock, at a database in memory, and runs of them.
use helppi_scim_go.Prelude.{String, true, false, [], ◌∷◌, ◌++◌, ◌≡◌, refl, itoa, contains, All, ℕ}
use helppi_scim_go.Exec.{Exec, ok, is_not_found, is_already_exists, atoi}
use helppi_scim_go.Store.Memory.Maps.{lookup, insert}
use helppi_scim_go.Store.Postgres.{
  updated, postgres_store, set_checkpoint, checkpoint, scan_helpper, collect, listed, checkpoint_of,
  helpper_by_directory_id, create_helpper, update_helpper, enabled_helppers,
}
use helppi_scim_go.Store.Postgres.Tables.{find, affected, amend, enabled_rows}
use helppi_scim_go.Store.Postgres.Listed.{ListsEnabled, enabled_helppers-ListsEnabled}
use helppi_scim_go.Store.Postgres.Backend.{View, GivenBack, ran, recorded, versions, without}
use helppi_scim_go.Store.Postgres.Migrate.{
  migration_lock_key, migrate, sort_strings, insert_string, migrate_files, migrate_file,
}
use helppi_scim_go.Store.Postgres.Migrate.Runs.{Migrated, files_of, succeeded, migrate-Run}
use helppi_scim_go.Store.Postgres.Migrate.Again.{migrate-again}
use helppi_scim_go.Store.Postgres.Lock.{with_sync_lock, lock_key}
use helppi_scim_go.Store.Postgres.Lock.Held.{Guarded, Balanced, with_sync_lock-Guarded}
use helppi_scim_go.StoreTest.{
  missing_is_not_found, create_then_read, duplicate_rejected, concurrent_create, update_applies,
  update_missing, checkpoint_round_trips, checkpoint_starts_zero, enabled_excludes_disabled,
  contract, race, joined,
}
use helppi_scim_go.Examples.Database.{Base, empty_base, base_database, base-DatabaseLaws}
use helppi_scim_go.Examples.Connection.{
  migrations, broken_migrations, idle, connection, connection-BackendLaws,
}

-- The contract tests, on the store over the database in memory.
postgres_store_passes : contract (postgres_store base_database "helppi") empty_base ≡ true
unfolding contract race joined contains itoa is_not_found is_already_exists missing_is_not_found
    create_then_read duplicate_rejected concurrent_create update_applies update_missing
    enabled_excludes_disabled checkpoint_round_trips checkpoint_starts_zero base_database
    helpper_by_directory_id create_helpper update_helpper enabled_helppers checkpoint set_checkpoint
    atoi find affected amend enabled_rows lookup insert listed
postgres_store_passes = refl

abbrev staffed : Base
staffed =
    (create_helpper base_database
      (record { directory_id = "hlp_a"; login = "a@separador.app"; display_name = "Ana" })
      empty_base).1

-- The text "+001" names the row with the id "1".
signed_key :
    (update_helpper base_database "+001"
      (record { enabled = false; display_name = "Ana"; login = "a@separador.app" })
      staffed).0
    ≡ ok tt
unfolding update_helpper updated base_database create_helpper itoa atoi find affected amend
signed_key = refl

enabled_helppers-ListsEnabled_example : ListsEnabled staffed.0.rows (enabled_rows staffed.0.rows)
unfolding enabled_helppers listed collect scan_helpper base_database base-DatabaseLaws
    create_helpper itoa atoi find affected enabled_rows
enabled_helppers-ListsEnabled_example =
    enabled_helppers-ListsEnabled base_database base-DatabaseLaws staffed
      (enabled_rows staffed.0.rows) refl

-- An instant is kept to the microsecond, and one in the epoch second reads as the zero time.
half_a_second_after_the_epoch :
    (checkpoint base_database "helppi"
      (set_checkpoint base_database "helppi" 62135596800500000000 empty_base).1).0
    ≡ ok 0
unfolding checkpoint set_checkpoint base_database lookup insert checkpoint_of
half_a_second_after_the_epoch = refl

-- Two migrations in the order of their names, and a second run.
two_migrations :
    (migrate connection migrations idle).1.log
    ≡ ran "migrations/0001_init.sql"
      ∷ recorded "migrations/0001_init.sql"
      ∷ ran "migrations/0002_more.sql"
      ∷ recorded "migrations/0002_more.sql"
      ∷ []
unfolding migrate migrate_files migrate_file sort_strings insert_string versions without contains
    connection
two_migrations = refl

-- A migration that the database refuses ends the run, with the lock and the connection given back.
broken_run : (migrate connection broken_migrations idle).1 ≡ record {
  log = ran "migrations/0001_init.sql" ∷ recorded "migrations/0001_init.sql" ∷ [];
  pending = [];
  held = [];
  out = 0;
}
unfolding migrate migrate_files migrate_file sort_strings insert_string versions without contains
    connection
broken_run = refl

migrate-Run_example :
    let (r, d') = migrate connection broken_migrations idle in
    Migrated broken_migrations
      (succeeded r)
      (files_of broken_migrations.glob)
      (connection-BackendLaws.seen idle).log
      (connection-BackendLaws.seen d').log
    × GivenBack connection connection-BackendLaws migration_lock_key
        (connection-BackendLaws.seen idle)
        (connection-BackendLaws.seen d')
    × ((connection-BackendLaws.seen d').out ≡ (connection-BackendLaws.seen idle).out)
migrate-Run_example = migrate-Run connection broken_migrations connection-BackendLaws idle

migrate-again_example :
    let d' = (migrate connection migrations idle).1 in
    All
      (λ file. contains file (versions (connection-BackendLaws.seen d').log) ≡ true)
      (files_of migrations.glob)
    × ((connection-BackendLaws.seen (migrate connection migrations d').1).log
        ≡ (connection-BackendLaws.seen d').log)
unfolding migrate migrate_files migrate_file sort_strings insert_string versions without contains
    connection
migrate-again_example = migrate-again connection migrations connection-BackendLaws idle refl

-- A cycle that writes to the log.
abbrev writing : Exec View (Unit {0})
writing v = (ok tt, record v { log = v.log ++ recorded "cycle" ∷ [] })

writing-Balanced : Balanced connection connection-BackendLaws writing
unfolding connection-BackendLaws
writing-Balanced d = (refl, refl)

abbrev length_of : String → ℕ
length_of s = 42

with_sync_lock-Guarded_example :
    let (r, d') = with_sync_lock connection length_of "helppi" writing idle in
    Guarded connection connection-BackendLaws length_of "helppi" writing writing-Balanced
      (connection-BackendLaws.seen idle)
      (connection-BackendLaws.seen d')
      r
    × ((connection.acquire idle).0 ≡ ok tt
        → (connection.try_lock
            (lock_key length_of "directory_sync:helppi")
            (connection.acquire idle).1).0
          ≡ ok true
        → r
          ≡ (writing
              (connection.try_lock
                (lock_key length_of "directory_sync:helppi")
                (connection.acquire idle).1).1).0)
unfolding lock_key
with_sync_lock-Guarded_example =
    with_sync_lock-Guarded connection connection-BackendLaws length_of "helppi" writing
      writing-Balanced idle
