-- ===== src/Directory/Apply/Checkpoint.antt =====
-- The store's checkpoint across `apply` (directory/directory.go).
use helppi_scim_go.Prelude.{◌+◌, Bool, ◌≡◌, arith, refl}
use helppi_scim_go.Exec.{Result, ok, err, continue, pure, ◌>>=◌}
use helppi_scim_go.Scim.Types.{User, Time}
use helppi_scim_go.Store.Types.{Store, Helpper}
use helppi_scim_go.Store.Laws.{StoreLaws}
use helppi_scim_go.Directory.Types.{Syncer, Session, unseen}
use helppi_scim_go.Directory.Interface.{Directory, State}
use helppi_scim_go.Directory.Apply.{
  write_back, ensure_helpper, payload, desired, sync_state, repair, looked_up, apply, is_active,
  tally, alert_once,
}
use helppi_scim_go.Directory.Apply.Refines.{store-write_back}

module _ {D T : Type 0} (syncer : Syncer) (st : Store T) (dir : Directory D)
    (laws : StoreLaws st) where
  abbrev pub mark_at : State D (Session T) → Time
  mark_at w = laws.mark w.rest.store

  mark-ensure :
      (u : User) (w : State D (Session T))
      → mark_at (ensure_helpper syncer st dir u w).1 ≡ mark_at w
  unfolding ensure_helpper
  mark-ensure u w = ground (
    arith,
    laws.create_mark (payload u) w.rest.store,
    laws.lookup_mark u.id (st.create_helpper (payload u) w.rest.store).1,
  )

  mark-sync :
      (u : User) (p : Helpper) (b : Bool) (w : State D (Session T))
      → mark_at (sync_state syncer st dir u p b w).1 ≡ mark_at w
  unfolding sync_state
  mark-sync u p b w = ground (arith, laws.update_mark p.id (desired u b) w.rest.store)

  mark-repair :
      (u : User) (p : Helpper) (w : State D (Session T))
      → mark_at (repair syncer st dir u p w).1 ≡ mark_at w
  unfolding repair
  mark-repair u p w = ground (arith, store-write_back syncer st dir u.id p.id w)

  mark-write_back_then :
      (u : User) (b : Bool) (r : Result Helpper) (w : State D (Session T))
      → mark_at (continue r (λ p. write_back syncer st dir u.id p.id >>= λ _. pure (unseen b)) w).1
        ≡ mark_at w
  mark-write_back_then u b (ok p) w = ground (arith, store-write_back syncer st dir u.id p.id w)
  mark-write_back_then u b (err e) w = refl

  mark-looked_up :
      (u : User) (b : Bool) (r : Result Helpper) (w : State D (Session T))
      → mark_at (looked_up syncer st dir u b r w).1 ≡ mark_at w
  unfolding looked_up
  mark-looked_up u b (ok p) w =
      ground (arith, mark-sync u p b w, mark-repair u p (sync_state syncer st dir u p b w).1)
  mark-looked_up u b (err e) w =
      let (r, w') = ensure_helpper syncer st dir u w in
      ground (arith, mark-ensure u w, mark-write_back_then u b r w')

  pub mark-apply :
      (u : User) (w : State D (Session T)) → mark_at (apply syncer st dir u w).1 ≡ mark_at w
  unfolding apply alert_once
  mark-apply u w =
      let x = tally (λ n. record n { scanned = n.scanned + 1 }) w.rest in
      let (r, t) = st.helpper_by_directory_id u.id x.store in
      let w₂ = record w { rest = record x { store = t } } in
      ground (arith, mark-looked_up u (is_active u.active) r w₂, laws.lookup_mark u.id x.store)
