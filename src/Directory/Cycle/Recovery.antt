-- ===== src/Directory/Cycle/Recovery.antt =====
-- A cycle of directory/directory.go that follows one that failed.
use helppi_scim_go.Prelude.{◌++◌, String, false, ◌≡◌, refl, ap, ◌∙◌, sym, subst, none, List, []}
use helppi_scim_go.Exec.{Result, ok, err}
use helppi_scim_go.Scim.Types.{User, Time}
use helppi_scim_go.Store.Types.{Store}
use helppi_scim_go.Store.Laws.{StoreLaws, CheckpointAnswer}
use helppi_scim_go.Directory.Types.{Syncer, Session}
use helppi_scim_go.Directory.Interface.{Directory, State}
use helppi_scim_go.Directory.Run.{DirectoryLaws}
use helppi_scim_go.Directory.Spec.{account, steps}
use helppi_scim_go.Directory.Spec.Replay.{steps_again}
use helppi_scim_go.Directory.Apply.Refines.{account_at}
use helppi_scim_go.Directory.Apply.Checkpoint.{mark_at}
use helppi_scim_go.Directory.Walk.{Delivered}
use helppi_scim_go.Directory.Walk.Refines.{IsPart, walk_with-IsPart}
use helppi_scim_go.Directory.Cycle.{
  filter_since, incremental, incremental_from, incremental_walked, begun, incremental_walk, timed,
  settle,
}
use helppi_scim_go.Directory.Cycle.Inversion.{started_at}
use helppi_scim_go.Directory.Cycle.Checkpoint.{view-advance}
use helppi_scim_go.Directory.Cycle.Incremental.{Fetched, incremental-steps}
use mathlib.Core.List.{append_assoc}

module _ {D T : Type 0} (syncer : Syncer) (st : Store T) (dir : Directory D) (laws : StoreLaws st)
    (d : DirectoryLaws dir) where
  -- The end of a cycle leaves the accounts alone.
  view-incremental_walked :
      (started cp : Time) (r : Result Time) (w : State D (Session T)) (j : String)
      → account_at syncer st dir laws (incremental_walked syncer st dir started cp r w).2 j
        ≡ account_at syncer st dir laws w j
  unfolding incremental_walked timed settle
  view-incremental_walked started cp (err e) w j = refl
  view-incremental_walked started cp (ok m) w j =
      ap account (view-advance syncer st dir laws cp m (timed syncer st dir started w) j)

  incremental_from-IsPart :
      (started cp : Time) (r : Result Time) (w : State D (Session T)) (us : List User) (j : String)
      → syncer.dry_run ≡ false
      → CheckpointAnswer cp r
      → Delivered {O = Unit {0}} syncer st dir none d (filter_since syncer.overlap cp) tt w us
      → IsPart us j
          (account_at syncer st dir laws w j)
          (account_at syncer st dir laws (incremental_from syncer st dir started r w).2 j)
  unfolding incremental_from
  incremental_from-IsPart started cp (err e) w us j real p run = ([], us, refl, refl)
  incremental_from-IsPart started cp (ok c) w us j real p run =
      let (r, _, w') = incremental_walk syncer st dir c w in
      let (vs, zs, q, h) =
        walk_with-IsPart syncer st dir laws none d (filter_since syncer.overlap c) tt w us j real (
          subst
            (λ x.
              Delivered {O = Unit {0}} syncer st dir none d (filter_since syncer.overlap x) tt w us)
            (sym p) run) in
      (vs, zs, q, view-incremental_walked started c r w' j ∙ h)

  -- However an incremental cycle of a real run ends, every account is the one that the specification gives for some
  -- first ones of the records fetched, from the account before the cycle.
  pub incremental-IsPart :
      (w : State D (Session T)) (us : List User) (j : String)
      → syncer.dry_run ≡ false
      → Fetched syncer st dir laws d w us
      → IsPart us j
          (account_at syncer st dir laws w j)
          (account_at syncer st dir laws (incremental syncer st dir w).2 j)
  unfolding incremental
  incremental-IsPart w us j real run =
      let (vs, zs, q, h) =
        incremental_from-IsPart (started_at syncer st dir w) (mark_at syncer st dir laws w)
          (begun syncer st dir w).0 (begun syncer st dir w).1 us j real
          (laws.checkpoint_answer w.rest.store) run in
      (vs, zs, q, h ∙ ap (λ o. steps vs j (account o)) (laws.checkpoint_view w.rest.store j))

  -- The state after an incremental cycle.
  abbrev pub after_cycle : State D (Session T) → State D (Session T)
  after_cycle w = (incremental syncer st dir w).2

  -- An incremental cycle of a real run that fetches the records `us` and ends in any way, and one after it that
  -- fetches them again, with further ones after them, and succeeds, leave every account as the specification gives
  -- it for the records of the second cycle, from the account before the first.
  pub incremental-recovers :
      (w : State D (Session T)) (us zs : List User) (j : String)
      → syncer.dry_run ≡ false
      → Fetched syncer st dir laws d w us
      → Fetched syncer st dir laws d (after_cycle w) (us ++ zs)
      → (incremental syncer st dir (after_cycle w)).1 ≡ none
      → account_at syncer st dir laws (after_cycle (after_cycle w)) j
        ≡ steps (us ++ zs) j (account_at syncer st dir laws w j)
  incremental-recovers w us zs j real first second success =
      let w₁ = after_cycle w in
      let a = account_at syncer st dir laws w j in
      let (vs, ys, p, h) = incremental-IsPart w us j real first in
      let split : us ++ zs ≡ vs ++ (ys ++ zs) = ap (λ l. l ++ zs) p ∙ append_assoc vs ys zs in
      incremental-steps syncer st dir laws d w₁ (us ++ zs) j real second success
      ∙ ap (λ l. steps l j (account_at syncer st dir laws w₁ j)) split
      ∙ ap (steps (vs ++ (ys ++ zs)) j) h
      ∙ steps_again vs (ys ++ zs) j a
      ∙ ap (λ l. steps l j a) (sym split)
