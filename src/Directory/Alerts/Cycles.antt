-- ===== src/Directory/Alerts/Cycles.antt =====
-- `alertOnce` across the cycles (directory/directory.go).
use helppi_scim_go.Prelude.{none, some, List, [], ◌∷◌, ◌++◌, ◌≡◌, arith}
use helppi_scim_go.Exec.{Result, ok, err}
use helppi_scim_go.Scim.Types.{User, Filter, Time, everything}
use helppi_scim_go.Store.Types.{Store, Helpper}
use helppi_scim_go.Directory.Types.{Syncer, Session, Drift}
use helppi_scim_go.Directory.Interface.{Directory, State}
use helppi_scim_go.Directory.Run.{DirectoryLaws, Run-rule}
use helppi_scim_go.Directory.Apply.{alert_once, on_store}
use helppi_scim_go.Directory.Alerts.{AlertedOnce, apply-Quiet}
use helppi_scim_go.Directory.Walk.{Walk, Observe, visit, walk_with, start, session-walk_with}
use helppi_scim_go.Directory.Walk.DryRun.{Ends-both}
use helppi_scim_go.Directory.Cycle.{
  Seen, see, nothing_seen, advance, timed, settle, begun, incremental, incremental_from,
  incremental_walked, incremental_walk, filter_since, full, full_from, full_walk, full_walked,
  compare_local, report_drift, absent,
}

module _ {D T : Type 0} (syncer : Syncer) (st : Store T) (dir : Directory D) where
  advance-Quiet :
      (cp m : Time) (w : State D (Session T))
      → AlertedOnce w.rest
      → AlertedOnce (advance syncer st dir cp m w).2.rest
  unfolding advance alert_once
  advance-Quiet cp m w h = ground (arith, h)

  settle-Quiet :
      (cp m : Time) (w : State D (Session T))
      → AlertedOnce w.rest
      → AlertedOnce (settle syncer st dir cp m w).2.rest
  unfolding settle
  settle-Quiet cp m w h = advance-Quiet cp m w h

  report_drift-Quiet :
      (d : Drift) (x : Session T) → AlertedOnce x → AlertedOnce (report_drift syncer st dir d x)
  unfolding report_drift
  report_drift-Quiet d x h = ground (arith, h)

  compare_local-Quiet :
      (cp m : Time) (o : Seen) (r : Result (List Helpper)) (w : State D (Session T))
      → AlertedOnce w.rest
      → AlertedOnce (compare_local syncer st dir cp m o r w).3.rest
  unfolding compare_local
  compare_local-Quiet cp m o (err e) w h = h
  compare_local-Quiet cp m o (ok ps) w h =
      let d = record o.drift { absent_from_directory = absent o.seen ps } in
      settle-Quiet cp m (record w { rest = report_drift syncer st dir d w.rest })
        (report_drift-Quiet d w.rest h)

  module _ {O : Type 0} (d : DirectoryLaws dir) (obs : Observe O) where
    abbrev QuietWalk : List User → State D (Walk T O) → Type 0
    QuietWalk vs v = AlertedOnce v.rest.session

    visit-Quiet :
        (vs : List User) (u : User) (v v' : State D (Walk T O)) (r : Result (Unit {0}))
        → QuietWalk vs v
        → visit syncer st dir obs u v ≡ (r, v')
        → QuietWalk (vs ++ u ∷ []) v'
    unfolding visit
    visit-Quiet vs u v v' r p eq =
        let x : State D (Session T) = record { dir = v.dir; rest = v.rest.session } in
        ground (arith, apply-Quiet syncer st dir u x p)

    walk_with-Quiet :
        (filter : Filter) (o : O) (w : State D (Session T))
        → AlertedOnce w.rest
        → AlertedOnce (walk_with syncer st dir obs filter o w).2.rest
    walk_with-Quiet filter o w h =
        let begin : State D (Walk T O) = record { dir = w.dir; rest = start w.rest o } in
        let (us, run) =
          d.list_users_runs (Walk T O) filter syncer.page_size (visit syncer st dir obs) begin in
        rw (session-walk_with syncer st dir obs filter o w).0 (
          Ends-both _ _ (
            Run-rule QuietWalk QuietWalk (λ vs v x r p. rw r.0 p)
              (λ vs u v v' p eq. visit-Quiet vs u v v' (ok tt) p eq)
              (λ vs u v v' e p eq. visit-Quiet vs u v v' (err e) p eq) [] us begin _ _ run h))

  module _ (d : DirectoryLaws dir) where
    incremental_walked-Quiet :
        (started cp : Time) (r : Result Time) (w : State D (Session T))
        → AlertedOnce w.rest
        → AlertedOnce (incremental_walked syncer st dir started cp r w).2.rest
    unfolding incremental_walked timed
    incremental_walked-Quiet started cp (err e) w h = h
    incremental_walked-Quiet started cp (ok m) w h =
        settle-Quiet cp m (timed syncer st dir started w) h

    incremental_from-Quiet :
        (started : Time) (r : Result Time) (w : State D (Session T))
        → AlertedOnce w.rest
        → AlertedOnce (incremental_from syncer st dir started r w).2.rest
    unfolding incremental_from
    incremental_from-Quiet started (err e) w h = h
    incremental_from-Quiet started (ok cp) w h =
        let (r, _, w') = incremental_walk syncer st dir cp w in
        incremental_walked-Quiet started cp r w'
          (walk_with-Quiet d none (filter_since syncer.overlap cp) tt w h)

    pub incremental-Quiet :
        (w : State D (Session T))
        → AlertedOnce w.rest
        → AlertedOnce (incremental syncer st dir w).2.rest
    unfolding incremental
    incremental-Quiet w h =
        let (r, w') = begun syncer st dir w in
        incremental_from-Quiet (syncer.clock w.rest.readings) r w' h

    full_walked-Quiet :
        (started cp : Time) (r : Result Time) (o : Seen) (w : State D (Session T))
        → AlertedOnce w.rest
        → AlertedOnce (full_walked syncer st dir started cp r o w).3.rest
    unfolding full_walked timed
    full_walked-Quiet started cp (err e) o w h = h
    full_walked-Quiet started cp (ok m) o w h =
        let (ps, v) =
          on_store {D = D} {T = T} st.enabled_helppers (timed syncer st dir started w) in
        compare_local-Quiet cp m o ps v h

    full_from-Quiet :
        (started : Time) (r : Result Time) (w : State D (Session T))
        → AlertedOnce w.rest
        → AlertedOnce (full_from syncer st dir started r w).3.rest
    unfolding full_from
    full_from-Quiet started (err e) w h = h
    full_from-Quiet started (ok cp) w h =
        let (r, o, w') = full_walk syncer st dir w in
        full_walked-Quiet started cp r o w'
          (walk_with-Quiet d (some see) everything nothing_seen w h)

    pub full-Quiet :
        (w : State D (Session T)) → AlertedOnce w.rest → AlertedOnce (full syncer st dir w).3.rest
    unfolding full
    full-Quiet w h =
        let (r, w') = begun syncer st dir w in full_from-Quiet (syncer.clock w.rest.readings) r w' h
