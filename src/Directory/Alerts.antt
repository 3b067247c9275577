-- ===== src/Directory/Alerts.antt =====
-- `alertOnce` across records (directory/directory.go): a key is alerted at most once.
pub mod Cycles
use helppi_scim_go.Prelude.{
  ◌+◌, String, ◌+ₛ◌, ◌=ₛ◌, Bool, true, false, List, [], ◌∷◌, ◌≡◌, refl, arith, contains, eq_refl,
  if◌then◌else◌,
}
use helppi_scim_go.Exec.{Result, ok, err, continue, pure, ◌>>=◌}
use helppi_scim_go.Scim.Types.{User}
use helppi_scim_go.Store.Types.{Store, Helpper}
use helppi_scim_go.Directory.Types.{Syncer, Session, Alert, once, drift_detected, unseen}
use helppi_scim_go.Directory.Interface.{Directory, State}
use helppi_scim_go.Directory.Apply.{
  patched, write_back, ensure_helpper, sync_state, repair, looked_up, apply, is_active, tally,
  alert_once,
}

-- The keys that were let through, newest first.
abbrev pub keys : List Alert → List String
keys [] = []
keys (once k ∷ l) = k ∷ keys l
keys (drift_detected _ _ _ ∷ l) = keys l

abbrev pub NoneTwice : List String → Type 0
NoneTwice [] = Unit
NoneTwice (k ∷ ks) = (contains k ks ≡ false) × NoneTwice ks

-- The set of keys is what was alerted, and no key was alerted twice.
abbrev pub AlertedOnce : {T : Type 0} → Session T → Type 0
AlertedOnce x = (keys x.alerts ≡ x.alerted) × NoneTwice x.alerted

module _ {T : Type 0} where
  alert_once-AlertedOnce :
      (k : String) (x : Session T) → AlertedOnce x → AlertedOnce (alert_once k x)
  unfolding alert_once
  alert_once-AlertedOnce k x h = ground (arith, h)

module _ {D T : Type 0} (syncer : Syncer) (st : Store T) (dir : Directory D) where
  abbrev Quiet : State D (Session T) → Type 0
  Quiet w = AlertedOnce w.rest

  patched-Quiet :
      (k : String) (r : Result User) (w : State D (Session T))
      → Quiet w
      → Quiet (patched syncer st dir k r w).1
  unfolding patched alert_once
  patched-Quiet k (ok _) w h = h
  patched-Quiet k (err e) w h = ground (arith, h)

  write_back-Quiet :
      (k i : String) (w : State D (Session T)) → Quiet w → Quiet (write_back syncer st dir k i w).1
  unfolding write_back
  write_back-Quiet k i w h =
      let (r, d) = dir.patch_external_id k i w.dir in
      ground (arith, h, patched-Quiet k r (record w { dir = d }) h)

  ensure-Quiet :
      (u : User) (w : State D (Session T)) → Quiet w → Quiet (ensure_helpper syncer st dir u w).1
  unfolding ensure_helpper
  ensure-Quiet u w h = ground (arith, h)

  sync-Quiet :
      (u : User) (p : Helpper) (b : Bool) (w : State D (Session T))
      → Quiet w
      → Quiet (sync_state syncer st dir u p b w).1
  unfolding sync_state
  sync-Quiet u p b w h = ground (arith, h)

  repair-Quiet :
      (u : User) (p : Helpper) (w : State D (Session T))
      → Quiet w
      → Quiet (repair syncer st dir u p w).1
  unfolding repair
  repair-Quiet u p w h = ground (arith, h, write_back-Quiet u.id p.id w h)

  write_back_then-Quiet :
      (u : User) (b : Bool) (r : Result Helpper) (w : State D (Session T))
      → Quiet w
      → Quiet (continue r (λ p. write_back syncer st dir u.id p.id >>= λ _. pure (unseen b)) w).1
  write_back_then-Quiet u b (ok p) w h = ground (arith, write_back-Quiet u.id p.id w h)
  write_back_then-Quiet u b (err e) w h = h

  looked_up-Quiet :
      (u : User) (b : Bool) (r : Result Helpper) (w : State D (Session T))
      → Quiet w
      → Quiet (looked_up syncer st dir u b r w).1
  unfolding looked_up
  looked_up-Quiet u b (ok p) w h =
      let (r, w') = sync_state syncer st dir u p b w in
      ground (arith, h, sync-Quiet u p b w h, repair-Quiet u p w')
  looked_up-Quiet u b (err e) w h =
      let (r, w') = ensure_helpper syncer st dir u w in
      ground (arith, h, write_back_then-Quiet u b r w' (ensure-Quiet u w h))

  pub apply-Quiet :
      (u : User) (w : State D (Session T)) → Quiet w → Quiet (apply syncer st dir u w).1
  unfolding apply alert_once
  apply-Quiet u w h =
      let x = tally (λ n. record n { scanned = n.scanned + 1 }) w.rest in
      let (r, t) = st.helpper_by_directory_id u.id x.store in
      let w₂ = record w { rest = record x { store = t } } in
      ground (arith, h, looked_up-Quiet u (is_active u.active) r w₂ h)
