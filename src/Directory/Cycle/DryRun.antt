-- ===== src/Directory/Cycle/DryRun.antt =====
-- `Incremental` and `Full` (directory/directory.go) where `DryRun` is set.
use helppi_scim_go.Prelude.{String, true, ◌≡◌, arith, refl, ◌∙◌, none, some, List}
use helppi_scim_go.Exec.{Result, ok, err}
use helppi_scim_go.Scim.Types.{Time, everything}
use helppi_scim_go.Store.Types.{Store, Helpper}
use helppi_scim_go.Store.Laws.{StoreLaws}
use helppi_scim_go.Directory.Types.{Syncer, Session, Drift}
use helppi_scim_go.Directory.Interface.{Directory, State}
use helppi_scim_go.Directory.Run.{DirectoryLaws}
use helppi_scim_go.Directory.Apply.{alert_once, on_store}
use helppi_scim_go.Directory.Walk.{walk_with}
use helppi_scim_go.Directory.Walk.DryRun.{Untouched, walk_with-dry_run}
use helppi_scim_go.Directory.Cycle.{
  Seen, see, nothing_seen, filter_since, advance, incremental, incremental_from, incremental_walked,
  timed, full, full_from, full_walked, compare_local, read_clock, absent, report_drift,
}

module _ {D T : Type 0} (syncer : Syncer) (st : Store T) (dir : Directory D)
    (dry : syncer.dry_run ≡ true) (laws : StoreLaws st) (d : DirectoryLaws dir) where
  abbrev Kept : String → State D (Session T) → State D (Session T) → Type 0
  Kept j w w' = Untouched syncer st dir dry laws d j w w'

  -- In a dry run `advance` writes nothing at all.
  advance-dry_run :
      (cp m : Time) (w : State D (Session T))
      → let w' = (advance syncer st dir cp m w).2 in
        (w'.rest.store ≡ w.rest.store) × (w'.dir ≡ w.dir)
  unfolding advance alert_once
  advance-dry_run cp m w = ground arith

  -- The end of an incremental cycle, whatever its walk returned.
  incremental_walked-Same :
      (started cp : Time) (r : Result Time) (w : State D (Session T))
      → let w' = (incremental_walked syncer st dir started cp r w).2 in
        (w'.rest.store ≡ w.rest.store) × (w'.dir ≡ w.dir)
  unfolding incremental_walked
  incremental_walked-Same started cp (err e) w = (refl, refl)
  incremental_walked-Same started cp (ok m) w = advance-dry_run cp m (timed syncer st dir started w)

  incremental_from-dry_run :
      (started : Time) (r : Result Time) (w : State D (Session T)) (j : String)
      → Kept j w (incremental_from syncer st dir started r w).2
  unfolding incremental_from
  incremental_from-dry_run started (err e) w j = (refl, refl, d.Reads-refl w.dir)
  incremental_from-dry_run started (ok cp) w j =
      let filter = filter_since syncer.overlap cp in
      let (r, _, w') = walk_with {O = Unit {0}} syncer st dir none filter tt w in
      let (stores, dirs) = incremental_walked-Same started cp r w' in
      rw (stores, dirs) (walk_with-dry_run syncer st dir dry laws d none filter tt w j)

  -- An incremental cycle of a dry run, however it ends, leaves every helpper and the checkpoint of the
  -- store as they were, and has only read the directory.
  pub incremental-dry_run :
      (w : State D (Session T)) (j : String) → Kept j w (incremental syncer st dir w).2
  unfolding incremental
  incremental-dry_run w j =
      let (started, w₁) = read_clock syncer st dir w in
      let (r, w₂) = on_store {D = D} {T = T} st.checkpoint w₁ in
      let (views, marks, reads) = incremental_from-dry_run started r w₂ j in
      (
        views ∙ laws.checkpoint_view w₁.rest.store j,
        marks ∙ laws.checkpoint_mark w₁.rest.store,
        reads,
      )

  store-report_drift :
      (found : Drift) (x : Session T) → (report_drift syncer st dir found x).store ≡ x.store
  unfolding report_drift
  store-report_drift found x = ground arith

  compare_local-Same :
      (cp m : Time) (o : Seen) (r : Result (List Helpper)) (w : State D (Session T))
      → let w' = (compare_local syncer st dir cp m o r w).3 in
        (w'.rest.store ≡ w.rest.store) × (w'.dir ≡ w.dir)
  unfolding compare_local
  compare_local-Same cp m o (err e) w = (refl, refl)
  compare_local-Same cp m o (ok ps) w =
      let found = record o.drift { absent_from_directory = absent o.seen ps } in
      let w' = record w { rest = report_drift syncer st dir found w.rest } in
      ground (arith, advance-dry_run cp m w', store-report_drift found w.rest)

  full_walked-dry_run :
      (started cp : Time) (r : Result Time) (o : Seen) (w w' : State D (Session T)) (j : String)
      → Kept j w w'
      → Kept j w (full_walked syncer st dir started cp r o w').3
  unfolding full_walked
  full_walked-dry_run started cp (err e) o w w' j h = h
  full_walked-dry_run started cp (ok m) o w w' j (views, marks, reads) =
      let (ps, x) = on_store {D = D} {T = T} st.enabled_helppers (timed syncer st dir started w') in
      let (stores, dirs) = compare_local-Same cp m o ps x in
      rw (stores, dirs)
        (laws.enabled_view w'.rest.store j ∙ views, laws.enabled_mark w'.rest.store ∙ marks, reads)

  full_from-dry_run :
      (started : Time) (r : Result Time) (w : State D (Session T)) (j : String)
      → Kept j w (full_from syncer st dir started r w).3
  unfolding full_from
  full_from-dry_run started (err e) w j = (refl, refl, d.Reads-refl w.dir)
  full_from-dry_run started (ok cp) w j =
      let (r, o, w') = walk_with syncer st dir (some see) everything nothing_seen w in
      full_walked-dry_run started cp r o w w' j
        (walk_with-dry_run syncer st dir dry laws d (some see) everything nothing_seen w j)

  -- A full cycle of a dry run, however it ends, leaves every helpper and the checkpoint of the store as
  -- they were, and has only read the directory.
  pub full-dry_run : (w : State D (Session T)) (j : String) → Kept j w (full syncer st dir w).3
  unfolding full
  full-dry_run w j =
      let (started, w₁) = read_clock syncer st dir w in
      let (r, w₂) = on_store {D = D} {T = T} st.checkpoint w₁ in
      let (views, marks, reads) = full_from-dry_run started r w₂ j in
      (
        views ∙ laws.checkpoint_view w₁.rest.store j,
        marks ∙ laws.checkpoint_mark w₁.rest.store,
        reads,
      )
