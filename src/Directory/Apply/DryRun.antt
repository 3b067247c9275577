-- ===== src/Directory/Apply/DryRun.antt =====
-- `apply` (directory/directory.go) where `DryRun` is set.
use helppi_scim_go.Prelude.{◌+◌, String, Bool, true, ◌≡◌, arith}
use helppi_scim_go.Exec.{Result, ok, err}
use helppi_scim_go.Scim.Types.{User}
use helppi_scim_go.Store.Types.{Store, Helpper}
use helppi_scim_go.Store.Laws.{StoreLaws}
use helppi_scim_go.Directory.Types.{Syncer, Session}
use helppi_scim_go.Directory.Interface.{Directory, State}
use helppi_scim_go.Directory.Apply.{
  write_back, ensure_helpper, sync_state, repair, looked_up, apply, is_active, tally, alert_once,
  placeholder, dry_run_helpper_id,
}

module _ {D T : Type 0} (syncer : Syncer) (st : Store T) (dir : Directory D)
    (dry : syncer.dry_run ≡ true) where
  -- The same store contents and the same directory.
  abbrev Same : State D (Session T) → State D (Session T) → Type 0
  Same w w' = (w'.rest.store ≡ w.rest.store) × (w'.dir ≡ w.dir)

  write_back-Same :
      (k i : String) (w : State D (Session T)) → Same w (write_back syncer st dir k i w).1
  unfolding write_back
  write_back-Same k i w = ground arith

  ensure-Same : (u : User) (w : State D (Session T)) → Same w (ensure_helpper syncer st dir u w).1
  unfolding ensure_helpper
  ensure-Same u w = ground arith

  ensure-ok :
      (u : User) (w : State D (Session T))
      → (ensure_helpper syncer st dir u w).0 ≡ ok (placeholder u.id)
  unfolding ensure_helpper
  ensure-ok u w = ground arith

  sync-Same :
      (u : User) (p : Helpper) (b : Bool) (w : State D (Session T))
      → Same w (sync_state syncer st dir u p b w).1
  unfolding sync_state
  sync-Same u p b w = ground arith

  repair-Same :
      (u : User) (p : Helpper) (w : State D (Session T)) → Same w (repair syncer st dir u p w).1
  unfolding repair
  repair-Same u p w = ground (arith, write_back-Same u.id p.id w)

  looked_up-Same :
      (u : User) (b : Bool) (r : Result Helpper) (w : State D (Session T))
      → Same w (looked_up syncer st dir u b r w).1
  unfolding looked_up
  looked_up-Same u b (ok p) w =
      ground (arith, sync-Same u p b w, repair-Same u p (sync_state syncer st dir u p b w).1)
  looked_up-Same u b (err e) w = ground (
    arith,
    ensure-Same u w,
    ensure-ok u w,
    write_back-Same u.id dry_run_helpper_id (ensure_helpper syncer st dir u w).1,
  )

  module _ (laws : StoreLaws st) where
    pub apply-dry_run :
        (u : User) (w : State D (Session T)) (j : String)
        → let w' = (apply syncer st dir u w).1 in
          (laws.view w'.rest.store j ≡ laws.view w.rest.store j)
          × (laws.mark w'.rest.store ≡ laws.mark w.rest.store)
          × (w'.dir ≡ w.dir)
    unfolding apply alert_once
    apply-dry_run u w j =
        let x = tally (λ n. record n { scanned = n.scanned + 1 }) w.rest in
        let (r, t) = st.helpper_by_directory_id u.id x.store in
        let w₂ = record w { rest = record x { store = t } } in
        ground (
          arith,
          looked_up-Same u (is_active u.active) r w₂,
          laws.lookup_view u.id x.store j,
          laws.lookup_mark u.id x.store,
        )
