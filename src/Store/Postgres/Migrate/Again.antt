-- ===== src/Store/Postgres/Migrate/Again.antt =====
-- A second run of `Migrate` of store/postgres/migrate.go.
use helppi_scim_go.Prelude.{
  String, Bool, true, List, [], ◌∷◌, ◌++◌, ◌≡◌, refl, ap, arith, contains, All, subst, eq_refl,
}
use helppi_scim_go.Exec.{ok}
use helppi_scim_go.Store.Postgres.Backend.{
  Backend, Embedded, BackendLaws, Entry, ran, recorded, versions,
}
use helppi_scim_go.Store.Postgres.Migrate.{migrate}
use helppi_scim_go.Store.Postgres.Migrate.Logs.{entries}
use helppi_scim_go.Store.Postgres.Migrate.Runs.{
  Migrated, finished, stopped, skipped, applied, succeeded, files_of, migrate-Run,
}

-- What is recorded stays recorded.
recorded-append :
    (file : String) (l l' : List Entry)
    → contains file (versions l) ≡ true
    → contains file (versions (l ++ l')) ≡ true
unfolding versions contains
recorded-append file [] l' h = absurd (ground (arith, h))
recorded-append file (ran b ∷ l) l' h = recorded-append file l l' h
recorded-append file (recorded v ∷ l) l' h = ground (arith, h, recorded-append file l l')

recorded-own :
    (file body : String) (l : List Entry) → contains file (versions (l ++ entries file body)) ≡ true
unfolding versions contains
recorded-own file body [] = ground (arith, eq_refl file)
recorded-own file body (ran b ∷ l) = recorded-own file body l
recorded-own file body (recorded v ∷ l) = ground (arith, recorded-own file body l)

module _ (embedded : Embedded) where
  recorded-Migrated :
      (file : String) {b : Bool} {files : List String} {l l' : List Entry}
      → Migrated embedded b files l l'
      → contains file (versions l) ≡ true
      → contains file (versions l') ≡ true
  recorded-Migrated file finished h = h
  recorded-Migrated file stopped h = h
  recorded-Migrated file (skipped _ m) h = recorded-Migrated file m h
  recorded-Migrated file (applied {file = other} {l = l} body _ _ m) h =
      recorded-Migrated file m (recorded-append file l (entries other body) h)

  -- After a run to the last file all files are recorded.
  pub all-recorded :
      {files : List String} {l l' : List Entry}
      → Migrated embedded true files l l'
      → All (λ file. contains file (versions l') ≡ true) files
  all-recorded finished = tt
  all-recorded (skipped {file = file} old m) = (recorded-Migrated file m old, all-recorded m)
  all-recorded (applied {file = file} {l = l} body _ _ m) =
      (recorded-Migrated file m (recorded-own file body l), all-recorded m)

  -- Where all files are recorded, no run changes the log.
  nothing_to_do :
      {b : Bool} {files : List String} {l l' : List Entry}
      → Migrated embedded b files l l'
      → All (λ file. contains file (versions l) ≡ true) files
      → l' ≡ l
  nothing_to_do finished h = refl
  nothing_to_do stopped h = refl
  nothing_to_do (skipped _ m) h = nothing_to_do m h.1
  nothing_to_do (applied body fresh _ m) h = absurd (let old = h.0 in ground (arith, fresh, old))

module _ {D : Type 0} (back : Backend D) (embedded : Embedded) (laws : BackendLaws back) where
  -- After a run of `Migrate` that succeeds every file is recorded, and another run, however it ends, commits nothing.
  pub migrate-again :
      (d : D)
      → (migrate back embedded d).0 ≡ ok tt
      → let d' = (migrate back embedded d).1 in
        All (λ file. contains file (versions (laws.seen d').log) ≡ true) (files_of embedded.glob)
        × ((laws.seen (migrate back embedded d').1).log ≡ (laws.seen d').log)
  migrate-again d success =
      let (r, d') = migrate back embedded d in
      let run : Migrated embedded true (files_of embedded.glob) (laws.seen d).log
          (laws.seen d').log =
        subst
          (λ b. Migrated embedded b (files_of embedded.glob) (laws.seen d).log (laws.seen d').log)
          (ap succeeded success) (migrate-Run back embedded laws d).0 in
      let all = all-recorded embedded run in
      (all, nothing_to_do embedded (migrate-Run back embedded laws d').0 all)
