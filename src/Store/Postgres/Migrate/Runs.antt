-- ===== src/Store/Postgres/Migrate/Runs.antt =====
-- What `Migrate` of store/postgres/migrate.go does, run after run.
use helppi_scim_go.Prelude.{
  ◌+◌, String, Bool, true, false, List, [], ◌∷◌, ◌++◌, ◌≡◌, refl, sym, ap, ◌∙◌, arith, Bool-cases,
  inl, inr, contains, subst,
}
use helppi_scim_go.Exec.{Result, ok, err, Error}
use helppi_scim_go.Store.Postgres.Backend.{
  Backend, Embedded, BackendLaws, Entry, versions, View, without, Changes, GivenBack, from_held,
}
use helppi_scim_go.Store.Postgres.Migrate.{
  migration_lock_key, sort_strings, migrate_file, migrate_files, with_files, with_versions, locked,
  connected, migrate,
}
use helppi_scim_go.Store.Postgres.Migrate.Logs.{SameHold, FileDone, entries, migrate_file-FileDone}

-- From one log to another: each file in turn is skipped where it is recorded, and else its text is run and recorded;
-- `true` is to the last file, `false` is to any.
pub data Migrated (embedded : Embedded)
    : Bool → List String → List Entry → List Entry → Type 0 where
  finished : {l : List Entry} → Migrated embedded true [] l l
  stopped : {files : List String} {l : List Entry} → Migrated embedded false files l l
  skipped :
      {b : Bool} {file : String} {files : List String} {l l' : List Entry}
      → contains file (versions l) ≡ true
      → Migrated embedded b files l l'
      → Migrated embedded b (file ∷ files) l l'
  applied :
      {b : Bool} {file : String} {files : List String} {l l' : List Entry} (body : String)
      → contains file (versions l) ≡ false
      → embedded.read_file file ≡ ok body
      → Migrated embedded b files (l ++ entries file body) l'
      → Migrated embedded b (file ∷ files) l l'

abbrev pub succeeded {ℓ} : {A : Type ℓ} → Result A → Bool
succeeded (ok a) = true
succeeded (err e) = false

-- The files that a run goes through, in their order.
abbrev pub files_of : Result (List String) → List String
files_of (ok files) = sort_strings files
files_of (err e) = []

module _ {D : Type 0} (back : Backend D) (embedded : Embedded) (laws : BackendLaws back) where
  -- What a run over some files leaves of a view.
  abbrev pub FilesDone : List String → View → View → Result (Unit {0}) → Type 0
  FilesDone files v v' r = Migrated embedded (succeeded r) files v.log v'.log × SameHold v v'

  then-FilesDone :
      (file : String) (files : List String) (v u v' : View) (r : Result (Unit {0}))
      → FileDone back embedded laws file v u (ok tt)
      → FilesDone files u v' r
      → FilesDone (file ∷ files) v v' r
  then-FilesDone file files v u v' r (inl (old, e), same) (run, same') = (
    skipped old (subst (λ l. Migrated embedded (succeeded r) files l v'.log) e run),
    (same'.0 ∙ same.0, same'.1 ∙ same.1),
  )
  then-FilesDone file files v u v' r (inr (fresh, (body, read, e)), same) (run, same') = (
    applied body fresh read (subst (λ l. Migrated embedded (succeeded r) files l v'.log) e run),
    (same'.0 ∙ same.0, same'.1 ∙ same.1),
  )

  failed-FilesDone :
      (files : List String) (v v' : View) (e : Error)
      → v'.log ≡ v.log
      → SameHold v v'
      → FilesDone files v v' (err e)
  failed-FilesDone files v v' e h same =
      (subst (λ l. Migrated embedded false files v.log l) (sym h) stopped, same)

  files-FilesDone :
      (files : List String) (d : D)
      → let (r, d') = migrate_files back embedded files d in
        FilesDone files (laws.seen d) (laws.seen d') r
  unfolding migrate_files
  files-FilesDone [] d = (finished, (refl, refl))
  files-FilesDone (file ∷ files) d =
      after (migrate_file back embedded file d).0 refl
        (migrate_file-FileDone back embedded laws file d)
        (files-FilesDone files (migrate_file back embedded file d).1)
    where
      d₁ : D
      d₁ = (migrate_file back embedded file d).1

      after :
          (r : Result (Unit {0}))
          → (migrate_file back embedded file d).0 ≡ r
          → FileDone back embedded laws file (laws.seen d) (laws.seen d₁) r
          → (let (q, d') = migrate_files back embedded files d₁ in
              FilesDone files (laws.seen d₁) (laws.seen d') q)
          → let (q, d') = migrate_files back embedded (file ∷ files) d in
            FilesDone (file ∷ files) (laws.seen d) (laws.seen d') q
      after (err e) h (same_log, same) run =
          rw (h, migrate_files)
            (failed-FilesDone (file ∷ files) (laws.seen d) (laws.seen d₁) e same_log same)
      after (ok _) h one run =
          rw (h, migrate_files)
            (let (q, d') = migrate_files back embedded files d₁ in
              then-FilesDone file files (laws.seen d) (laws.seen d₁) (laws.seen d') q one run)

  -- A run that has its lock and its connection.
  abbrev Running : View → View → Result (Unit {0}) → Type 0
  Running v v' r = FilesDone (files_of embedded.glob) v v' r

  -- A run with its lock, or its connection too, given back.
  abbrev pub Run : View → View → Result (Unit {0}) → Type 0
  Run v v' r =
      Migrated embedded (succeeded r) (files_of embedded.glob) v.log v'.log
      × GivenBack back laws migration_lock_key v v'
      × (v'.out ≡ v.out)

  with_files-FilesDone :
      (g : Result (List String)) (d : D)
      → let (r, d') = with_files back embedded g d in
        FilesDone (files_of g) (laws.seen d) (laws.seen d') r
  unfolding with_files
  with_files-FilesDone (err e) d = (stopped, (refl, refl))
  with_files-FilesDone (ok files) d = files-FilesDone (sort_strings files) d

  with_versions-Running :
      (r : Result (Unit {0})) (d : D)
      → let (q, d') = with_versions back embedded r d in Running (laws.seen d) (laws.seen d') q
  unfolding with_versions
  with_versions-Running (err e) d = (stopped, (refl, refl))
  with_versions-Running (ok _) d = with_files-FilesDone embedded.glob d

  -- The same records from a view that has the same log.
  from_log :
      (v u : View) (l : List Entry) (b : Bool)
      → u.log ≡ v.log
      → Migrated embedded b (files_of embedded.glob) u.log l
      → Migrated embedded b (files_of embedded.glob) v.log l
  from_log v u l b h run = subst (λ k. Migrated embedded b (files_of embedded.glob) k l) h run

  -- From a view with one lock more, back to the view without it.
  unlocked-Run :
      (v u : View) (d' : D) (r : Result (Unit {0}))
      → u ≡ record v { held = migration_lock_key ∷ v.held }
      → Running u (laws.seen d') r
      → Run v (laws.seen (back.unlock migration_lock_key d')) r
  unfolding without
  unlocked-Run v u d' r h (run, same) =
      let run' = from_log v u (laws.seen d').log (succeeded r) (ap (λ (x : View). x.log) h) run in
      let held' = same.0 ∙ ap (λ (x : View). x.held) h in
      let out' = same.1 ∙ ap (λ (x : View). x.out) h in
      elim (Bool-cases (laws.frees migration_lock_key d')) [
        | inl freed ↦
            rw (laws.unlock migration_lock_key d', freed)
              (run', inl (ap (without migration_lock_key) held'), out')
        | inr lingers ↦
            rw (laws.unlock migration_lock_key d', lingers) (run', inr (d', lingers, held'), out')
      ]

  released-Run :
      (v u : View) (d' : D) (r : Result (Unit {0}))
      → u ≡ record v { out = v.out + 1 }
      → Run u (laws.seen d') r
      → Run v (laws.seen (back.release d')) r
  released-Run v u d' r h (run, held, out) = rw (laws.release d') (
    from_log v u (laws.seen d').log (succeeded r) (ap (λ (x : View). x.log) h) run,
    from_held back laws migration_lock_key v u (laws.seen d') (ap (λ (x : View). x.held) h) held,
    omega (arith, out, ap (λ (x : View). x.out) h),
  )

  locked-Run :
      (v : View) (r : Result (Unit {0})) (d : D)
      → Changes v (record v { held = migration_lock_key ∷ v.held }) (laws.seen d) r
      → let (q, d') = locked back embedded r d in Run v (laws.seen d') q
  unfolding locked
  locked-Run v (err e) d h = rw h (stopped, inl refl, refl)
  locked-Run v (ok _) d h =
      let (r, d₁) = back.create_versions d in
      let (q, d₂) = with_versions back embedded r d₁ in
      unlocked-Run v (laws.seen d₁) d₂ q (laws.create_versions d ∙ h) (with_versions-Running r d₁)

  connected-Run :
      (v : View) (r : Result (Unit {0})) (d : D)
      → Changes v (record v { out = v.out + 1 }) (laws.seen d) r
      → let (q, d') = connected back embedded r d in Run v (laws.seen d') q
  unfolding connected
  connected-Run v (err e) d h = rw h (stopped, inl refl, refl)
  connected-Run v (ok _) d h =
      let (r, d₁) = back.take_lock migration_lock_key d in
      let (q, d₂) = locked back embedded r d₁ in
      released-Run v (laws.seen d) d₂ q h
        (locked-Run (laws.seen d) r d₁ (laws.take_lock migration_lock_key d))

  -- However `Migrate` ends, it has gone through the files in the order of their names: a file that was recorded is
  -- skipped, and any other is run and recorded together, or not at all. It has gone through all of them where it
  -- succeeds, and through the first ones where it fails. The connection is given back, and the advisory lock too,
  -- unless the statement that frees it fails.
  pub migrate-Run :
      (d : D)
      → let (r, d') = migrate back embedded d in
        Migrated embedded
          (succeeded r)
          (files_of embedded.glob)
          (laws.seen d).log
          (laws.seen d').log
        × GivenBack back laws migration_lock_key (laws.seen d) (laws.seen d')
        × ((laws.seen d').out ≡ (laws.seen d).out)
  unfolding migrate
  migrate-Run d = let (r, d') = back.acquire d in connected-Run (laws.seen d) r d' (laws.acquire d)
