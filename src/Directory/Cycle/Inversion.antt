-- ===== src/Directory/Cycle/Inversion.antt =====
-- The steps of `Incremental` and `Full` (directory/directory.go) where they return no error.
use helppi_scim_go.Prelude.{◌≡◌, refl, ap, none, List}
use helppi_scim_go.Exec.{Result, ok, err}
use helppi_scim_go.Scim.Types.{Time}
use helppi_scim_go.Store.Types.{Store, Helpper}
use helppi_scim_go.Directory.Types.{Syncer, Session}
use helppi_scim_go.Directory.Interface.{Directory, State}
use helppi_scim_go.Directory.Apply.{on_store}
use helppi_scim_go.Directory.Cycle.{
  incremental, incremental_from, incremental_walked, begun, incremental_walk, timed, settle, full,
  full_from, full_walk, Seen, full_walked, compare_local,
}

module _ {D T : Type 0} (syncer : Syncer) (st : Store T) (dir : Directory D) where
  -- The start of the cycle in a state `w`, by the clock.
  abbrev pub started_at : State D (Session T) → Time
  started_at w = syncer.clock w.rest.readings

  walked-inversion :
      (started cp : Time) (r : Result Time) (w : State D (Session T))
      → (incremental_walked syncer st dir started cp r w).1 ≡ none
      → (m : Time) × (r ≡ ok m)
        × (incremental_walked syncer st dir started cp r w
            ≡ settle syncer st dir cp m (timed syncer st dir started w))
  unfolding incremental_walked
  walked-inversion started cp (err e) w h = cc
  walked-inversion started cp (ok m) w h = (m, refl, refl)

  from-inversion :
      (started : Time) (r : Result Time) (w : State D (Session T))
      → (incremental_from syncer st dir started r w).1 ≡ none
      → (cp m : Time) × (r ≡ ok cp)
        × ((incremental_walk syncer st dir cp w).0 ≡ ok m)
        × (incremental_from syncer st dir started r w
            ≡ settle syncer st dir cp m
                (timed syncer st dir started (incremental_walk syncer st dir cp w).2))
  unfolding incremental_from
  from-inversion started (err e) w h = cc
  from-inversion started (ok cp) w h =
      let (r, _, w') = incremental_walk syncer st dir cp w in
      let (m, p, q) = walked-inversion started cp r w' h in (cp, m, refl, p, q)

  -- An incremental cycle that succeeds has read a checkpoint, has walked from it without an error,
  -- and ends as `advance` ends.
  pub incremental-inversion :
      (w : State D (Session T))
      → (incremental syncer st dir w).1 ≡ none
      → (cp m : Time) × ((begun syncer st dir w).0 ≡ ok cp)
        × ((incremental_walk syncer st dir cp (begun syncer st dir w).1).0 ≡ ok m)
        × (incremental syncer st dir w
            ≡ settle syncer st dir cp m (
                timed syncer st dir
                  (started_at w)
                  (incremental_walk syncer st dir cp (begun syncer st dir w).1).2))
  unfolding incremental
  incremental-inversion w h =
      from-inversion (started_at w) (begun syncer st dir w).0 (begun syncer st dir w).1 h

  listed-inversion :
      (cp m : Time) (o : Seen) (r : Result (List Helpper)) (w : State D (Session T))
      → (compare_local syncer st dir cp m o r w).2 ≡ none
      → (ps : List Helpper) × (r ≡ ok ps)
  unfolding compare_local
  listed-inversion cp m o (err e) w h = cc
  listed-inversion cp m o (ok ps) w h = (ps, refl)

  full_walked-inversion :
      (started cp : Time) (r : Result Time) (o : Seen) (w : State D (Session T))
      → (full_walked syncer st dir started cp r o w).2 ≡ none
      → (m : Time) × (ps : List Helpper) × (r ≡ ok m)
        × ((st.enabled_helppers w.rest.store).0 ≡ ok ps)
        × (full_walked syncer st dir started cp r o w
            ≡ compare_local syncer st dir cp m o
                (ok ps)
                (on_store {D = D} {T = T} st.enabled_helppers (timed syncer st dir started w)).1)
  unfolding full_walked timed
  full_walked-inversion started cp (err e) o w h = cc
  full_walked-inversion started cp (ok m) o w h =
      let (r, v) = on_store {D = D} {T = T} st.enabled_helppers (timed syncer st dir started w) in
      let (ps, q) = listed-inversion cp m o r v h in
      (m, ps, refl, q, ap (λ x. compare_local syncer st dir cp m o x v) q)

  full_from-inversion :
      (started : Time) (r : Result Time) (w : State D (Session T))
      → (full_from syncer st dir started r w).2 ≡ none
      → (cp m : Time) × (ps : List Helpper) × (r ≡ ok cp)
        × ((full_walk syncer st dir w).0 ≡ ok m)
        × ((st.enabled_helppers (full_walk syncer st dir w).2.rest.store).0 ≡ ok ps)
        × (full_from syncer st dir started r w
            ≡ compare_local syncer st dir cp m
                (full_walk syncer st dir w).1
                (ok ps)
                (on_store {D = D} {T = T} st.enabled_helppers
                  (timed syncer st dir started (full_walk syncer st dir w).2)).1)
  unfolding full_from
  full_from-inversion started (err e) w h = cc
  full_from-inversion started (ok cp) w h =
      let (r, o, w') = full_walk syncer st dir w in
      let (m, ps, p, q, e) = full_walked-inversion started cp r o w' h in (cp, m, ps, refl, p, q, e)

  -- A full cycle that succeeds has read a checkpoint, has walked everything without an error, has
  -- listed the enabled helppers, and ends as the comparison with that list ends.
  pub full-inversion :
      (w : State D (Session T))
      → (full syncer st dir w).2 ≡ none
      → (cp m : Time) × (ps : List Helpper) × ((begun syncer st dir w).0 ≡ ok cp)
        × ((full_walk syncer st dir (begun syncer st dir w).1).0 ≡ ok m)
        × ((st.enabled_helppers (full_walk syncer st dir (begun syncer st dir w).1).2.rest.store).0
            ≡ ok ps)
        × (full syncer st dir w
            ≡ compare_local syncer st dir cp m
                (full_walk syncer st dir (begun syncer st dir w).1).1
                (ok ps)
                (on_store {D = D} {T = T} st.enabled_helppers (
                  timed syncer st dir
                    (started_at w)
                    (full_walk syncer st dir (begun syncer st dir w).1).2)).1)
  unfolding full
  full-inversion w h =
      full_from-inversion (started_at w) (begun syncer st dir w).0 (begun syncer st dir w).1 h
