-- ===== src/Directory/Cycle/FullSteps.antt =====
-- The accounts across `Full` (directory/directory.go), where it succeeds.
use helppi_scim_go.Prelude.{◌≡◌, String, false, arith, ap, ◌∙◌, some, none, Option, List}
use helppi_scim_go.Exec.{ok, Error}
use helppi_scim_go.Scim.Types.{Time, everything, User}
use helppi_scim_go.Store.Types.{Store, Helpper}
use helppi_scim_go.Store.Laws.{StoreLaws}
use helppi_scim_go.Directory.Types.{Syncer, Session, Drift, Stats}
use helppi_scim_go.Directory.Interface.{Directory, State}
use helppi_scim_go.Directory.Run.{DirectoryLaws}
use helppi_scim_go.Directory.Spec.{account, steps}
use helppi_scim_go.Directory.Apply.{on_store}
use helppi_scim_go.Directory.Apply.Refines.{account_at}
use helppi_scim_go.Directory.Walk.{Delivered}
use helppi_scim_go.Directory.Walk.Refines.{walk_with-steps}
use helppi_scim_go.Directory.Cycle.{
  Seen, see, nothing_seen, full, full_walk, compare_local, report_drift, timed, settle, with_drift,
  begun, absent,
}
use helppi_scim_go.Directory.Cycle.Inversion.{full-inversion, started_at}
use helppi_scim_go.Directory.Cycle.Checkpoint.{view-advance}

module _ {D T : Type 0} (syncer : Syncer) (st : Store T) (dir : Directory D) (laws : StoreLaws st)
    (d : DirectoryLaws dir) where
  pub view-compare_local :
      (cp m : Time) (o : Seen) (ps : List Helpper) (w : State D (Session T)) (j : String)
      → laws.view (compare_local syncer st dir cp m o (ok ps) w).3.rest.store j
        ≡ laws.view w.rest.store j
  unfolding compare_local settle with_drift report_drift
  view-compare_local cp m o ps w j =
      let found = record o.drift { absent_from_directory = absent o.seen ps } in
      let w' = record w { rest = report_drift syncer st dir found w.rest } in
      let same : w'.rest.store ≡ w.rest.store = ground arith in
      view-advance syncer st dir laws cp m w' j ∙ ap (λ t. laws.view t j) same

  -- The records that the walk of a full cycle delivers: all that the directory serves.
  abbrev pub AllFetched : State D (Session T) → List User → Type 0
  AllFetched w us =
      Delivered syncer st dir (some see) d everything nothing_seen (begun syncer st dir w).1 us

  -- After a full cycle of a real run that succeeds, every account is the one that the specification gives
  -- for the records fetched, from the account before the cycle.
  pub full-steps :
      (w : State D (Session T)) (us : List User) (j : String)
      → syncer.dry_run ≡ false
      → AllFetched w us
      → (full syncer st dir w).2 ≡ none
      → account_at syncer st dir laws (full syncer st dir w).3 j
        ≡ steps us j (account_at syncer st dir laws w j)
  unfolding timed
  full-steps w us j real run success =
      let (cp, m, ps, read, walk, listed, e) = full-inversion syncer st dir w success in
      let (_, o, w') = full_walk syncer st dir (begun syncer st dir w).1 in
      let v =
        (on_store {D = D} {T = T} st.enabled_helppers
          (timed syncer st dir (started_at syncer st dir w) w')).1 in
      ap
        (λ (x : Stats × Drift × Option Error × State D (Session T)).
          account (laws.view x.3.rest.store j))
        e
      ∙ ap account (view-compare_local cp m o ps v j ∙ laws.enabled_view w'.rest.store j)
      ∙ walk_with-steps syncer st dir laws (some see) d everything nothing_seen
          (begun syncer st dir w).1 m us j real run walk
      ∙ ap (λ a. steps us j (account a)) (laws.checkpoint_view w.rest.store j)
