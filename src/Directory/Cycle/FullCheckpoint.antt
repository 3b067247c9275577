-- ===== src/Directory/Cycle/FullCheckpoint.antt =====
-- The checkpoint across `Full` (directory/directory.go).
use helppi_scim_go.Prelude.{◌≡◌, arith, sym, ◌∙◌, some, Option, List}
use helppi_scim_go.Exec.{Result, ok, err, Error}
use helppi_scim_go.Scim.Types.{Time, everything}
use helppi_scim_go.Store.Types.{Store, Helpper}
use helppi_scim_go.Store.Laws.{StoreLaws, CheckpointAnswer, KeepsForward}
use helppi_scim_go.Directory.Types.{Syncer, Session, Drift, Stats}
use helppi_scim_go.Directory.Interface.{Directory, State}
use helppi_scim_go.Directory.Run.{DirectoryLaws}
use helppi_scim_go.Directory.Apply.{on_store}
use helppi_scim_go.Directory.Apply.Checkpoint.{mark_at}
use helppi_scim_go.Directory.Cycle.{
  Seen, see, nothing_seen, full, full_from, full_walk, full_walked, compare_local, report_drift,
  timed, settle, with_drift, begun, absent,
}
use helppi_scim_go.Directory.Cycle.Checkpoint.{
  Moved, Forward, Moved-Forward, settle-Moved, mark-walk_with,
}

module _ {D T : Type 0} (syncer : Syncer) (st : Store T) (dir : Directory D)
    (laws : StoreLaws st) where
  abbrev mark_of : State D (Session T) → Time
  mark_of w = mark_at syncer st dir laws w

  -- `Moved`, of what a full cycle returns.
  abbrev pub FullMoved : Time → Stats × Drift × Option Error × State D (Session T) → Type 0
  FullMoved cp (stats, drift, e, w) = Moved syncer st dir laws cp stats e w

  FullMoved-with_drift :
      (cp : Time) (d : Drift) (x : Stats × Option Error × State D (Session T))
      → Moved syncer st dir laws cp x.0 x.1 x.2
      → FullMoved cp (with_drift syncer st dir d x)
  unfolding with_drift
  FullMoved-with_drift cp d x h = h

  mark-report_drift :
      (d : Drift) (w : State D (Session T))
      → mark_of (record w { rest = report_drift syncer st dir d w.rest }) ≡ mark_of w
  unfolding report_drift
  mark-report_drift d w = ground arith

  compare_local-FullMoved :
      (cp m : Time) (o : Seen) (r : Result (List Helpper)) (w : State D (Session T))
      → mark_of w ≡ cp
      → FullMoved cp (compare_local syncer st dir cp m o r w)
  unfolding compare_local
  compare_local-FullMoved cp m o (err e) w h = h
  compare_local-FullMoved cp m o (ok ps) w h =
      let d = record o.drift { absent_from_directory = absent o.seen ps } in
      let w' = record w { rest = report_drift syncer st dir d w.rest } in
      FullMoved-with_drift cp d (settle syncer st dir cp m w')
        (settle-Moved syncer st dir laws cp m w' (mark-report_drift d w ∙ h))

  full_walked-FullMoved :
      (started cp : Time) (r : Result Time) (o : Seen) (w : State D (Session T))
      → mark_of w ≡ cp
      → FullMoved cp (full_walked syncer st dir started cp r o w)
  unfolding full_walked
  full_walked-FullMoved started cp (err e) o w h = h
  full_walked-FullMoved started cp (ok m) o w h =
      let (ps, v) = on_store {D = D} {T = T} st.enabled_helppers (timed syncer st dir started w) in
      compare_local-FullMoved cp m o ps v (laws.enabled_mark w.rest.store ∙ h)

  module _ (d : DirectoryLaws dir) where
    full_from-FullMoved :
        (started cp : Time) (r : Result Time) (w : State D (Session T))
        → mark_of w ≡ cp
        → CheckpointAnswer cp r
        → FullMoved cp (full_from syncer st dir started r w)
    unfolding full_from
    full_from-FullMoved started cp (err e) w h a = h
    full_from-FullMoved started cp (ok at) w h a =
        let (r, o, w') = full_walk syncer st dir w in
        rw (← a) (
          full_walked-FullMoved started at r o w'
            (mark-walk_with syncer st dir laws d (some see) everything nothing_seen w ∙ h ∙ sym a))

    pub full-FullMoved : (w : State D (Session T)) → FullMoved (mark_of w) (full syncer st dir w)
    unfolding full
    full-FullMoved w =
        full_from-FullMoved (syncer.clock w.rest.readings) (mark_of w) (begun syncer st dir w).0
          (begun syncer st dir w).1 (laws.checkpoint_mark w.rest.store)
          (laws.checkpoint_answer w.rest.store)

    -- On a store that keeps no later instant as one before its checkpoint, a full cycle never moves the checkpoint
    -- back, also where the list of enabled helpers cannot be read. If it fails, the checkpoint stands; if it succeeds,
    -- it reports the old one, which stands, or a later one, of which the store has what it keeps, which is not past the
    -- one reported.
    pub full-Forward :
        (keeps : KeepsForward st laws) (w : State D (Session T))
        → let (stats, _, e, w') = full syncer st dir w in
          Forward syncer st dir laws (mark_of w) stats e w'
    full-Forward keeps w =
        let (stats, _, e, w') = full syncer st dir w in
        Moved-Forward syncer st dir laws w.rest.store stats e w' keeps (full-FullMoved w)
