-- ===== src/Directory/Walk/DryRun.antt =====
-- `walkWith` (directory/directory.go) where `DryRun` is set.
use helppi_scim_go.Prelude.{String, true, List, [], ◌∷◌, ◌++◌, ◌≡◌, refl, arith, inl, inr}
use helppi_scim_go.Exec.{Result, ok, err}
use helppi_scim_go.Scim.Types.{User, Filter}
use helppi_scim_go.Store.Types.{Store}
use helppi_scim_go.Store.Laws.{StoreLaws}
use helppi_scim_go.Directory.Types.{Syncer, Session}
use helppi_scim_go.Directory.Interface.{Directory, State}
use helppi_scim_go.Directory.Run.{Read, DirectoryLaws, Ends, Run-rule}
use helppi_scim_go.Directory.Apply.DryRun.{apply-dry_run}
use helppi_scim_go.Directory.Walk.{Walk, Observe, visit, walk_with, start, session-walk_with}

-- Either end of a walk where both ends say the same.
pub Ends-both : (P : Type 0) (r : Result (Unit {0})) → Ends P P r → P
Ends-both P (ok _) p = p
Ends-both P (err _) (inl p) = p
Ends-both P (err _) (inr p) = p

module _ {D T : Type 0} (syncer : Syncer) (st : Store T) (dir : Directory D)
    (dry : syncer.dry_run ≡ true) (laws : StoreLaws st) (d : DirectoryLaws dir) where
  -- From `w` to `w'` the store's two views are the same, and the directory was only read.
  abbrev pub Untouched : String → State D (Session T) → State D (Session T) → Type 0
  Untouched j w w' =
      (laws.view w'.rest.store j ≡ laws.view w.rest.store j)
      × (laws.mark w'.rest.store ≡ laws.mark w.rest.store)
      × d.Reads w.dir w'.dir

  module _ {O : Type 0} (obs : Observe O) where
    abbrev Since : String → State D (Session T) → List User → State D (Walk T O) → Type 0
    Since j w vs v = Untouched j w (record { dir = v.dir; rest = v.rest.session })

    Since-Read :
        (j : String) (w : State D (Session T)) (vs : List User) (v x : State D (Walk T O))
        → Read d.Reads v x
        → Since j w vs v
        → Since j w vs x
    Since-Read j w vs v x (same, reads) (a, b, c) =
        (rw same a, rw same b, d.Reads-trans w.dir v.dir x.dir c reads)

    Since-visit :
        (j : String) (w : State D (Session T)) (vs : List User) (u : User)
        (v v' : State D (Walk T O)) (r : Result (Unit {0}))
        → Since j w vs v
        → visit syncer st dir obs u v ≡ (r, v')
        → Since j w (vs ++ u ∷ []) v'
    unfolding visit
    Since-visit j w vs u v v' r (a, b, c) eq =
        let x : State D (Session T) = record { dir = v.dir; rest = v.rest.session } in
        let facts = apply-dry_run syncer st dir dry laws u x j in
        let same_dir : v'.dir ≡ v.dir = ground arith in (ground arith, ground arith, rw same_dir c)

    pub walk_with-dry_run :
        (filter : Filter) (o : O) (w : State D (Session T)) (j : String)
        → Untouched j w (walk_with syncer st dir obs filter o w).2
    walk_with-dry_run filter o w j =
        let begin : State D (Walk T O) = record { dir = w.dir; rest = start w.rest o } in
        let (us, run) =
          d.list_users_runs (Walk T O) filter syncer.page_size (visit syncer st dir obs) begin in
        let (same, dirs, _) = session-walk_with syncer st dir obs filter o w in
        rw (same, dirs)
          (Ends-both _ _ (
            Run-rule (Since j w) (Since j w) (λ vs v x h p. Since-Read j w vs v x h p)
              (λ vs u v v' p eq. Since-visit j w vs u v v' (ok tt) p eq)
              (λ vs u v v' e p eq. Since-visit j w vs u v v' (err e) p eq) [] us begin _ _ run
              (refl, refl, d.Reads-refl w.dir)))
