-- ===== src/Directory/Walk/Counters.antt =====
-- The counters that `walkWith` (directory/directory.go) keeps, against the records that were delivered.
use helppi_scim_go.Prelude.{
  ℕ, ◌+◌, ◌≤◌, List, [], ◌∷◌, ◌++◌, ◌≡◌, arith, length, length-append, if◌then◌else◌, ℤ, pos, ◌≤ℤ◌,
}
use helppi_scim_go.Exec.{ok}
use helppi_scim_go.Scim.Types.{User, Filter, Time}
use helppi_scim_go.Store.Types.{Store}
use helppi_scim_go.Store.Laws.{StoreLaws}
use helppi_scim_go.Directory.Types.{Syncer, Session, Stats}
use helppi_scim_go.Directory.Interface.{Directory, State}
use helppi_scim_go.Directory.Run.{DirectoryLaws, Ends-ok, Run-rule}
use helppi_scim_go.Directory.Apply.Usable.{usable, malformed-apply}
use helppi_scim_go.Directory.Apply.Counters.{accounted, answered, apply-Counted}
use helppi_scim_go.Directory.Walk.{
  Walk, Observe, visit, walk_with, Delivered, walk_with-ok, session-walk_with,
}

-- How many of the records are unusable.
abbrev pub count_unusable : List User → ℕ
count_unusable [] = 0
count_unusable (u ∷ us) = (if usable u then 0 else 1) + count_unusable us

count_unusable-append :
    (vs : List User) (u : User)
    → count_unusable (vs ++ u ∷ []) ≡ count_unusable vs + (if usable u then 0 else 1)
count_unusable-append [] u = omega arith
count_unusable-append (v ∷ vs) u = omega (arith, count_unusable-append vs u)

-- The counters of a walk that handled the records `vs`.
pub record Tallied (limit : ℤ) (vs : List User) (s : Stats) : Type 0 where
  pub scanned_all : s.scanned ≡ length vs
  pub accounted_all : accounted s ≡ length vs
  pub malformed_all : s.malformed ≡ count_unusable vs
  pub answered_most : answered s ≤ length vs
  pub within_limit : pos 0 ≤ℤ limit → pos s.malformed ≤ℤ limit

module _ {D T O : Type 0} (syncer : Syncer) (st : Store T) (dir : Directory D) (laws : StoreLaws st)
    (obs : Observe O) where
  abbrev stats_of : State D (Walk T O) → Stats
  stats_of v = v.rest.session.stats

  Tallied-visit :
      (vs : List User) (u : User) (v v' : State D (Walk T O))
      → Tallied syncer.max_malformed vs (stats_of v)
      → visit syncer st dir obs u v ≡ (ok tt, v')
      → Tallied syncer.max_malformed (vs ++ u ∷ []) (stats_of v')
  unfolding visit
  Tallied-visit vs u v v' p eq =
      let w : State D (Session T) = record { dir = v.dir; rest = v.rest.session } in
      ground (
        arith,
        apply-Counted syncer st dir laws u w,
        malformed-apply syncer st dir u w,
        count_unusable-append vs u,
        length-append vs (u ∷ []),
      )

  -- After a walk that succeeds every delivered record was scanned and is accounted for by exactly one
  -- of the seven outcome counters, the malformed counter is the number of unusable records and is
  -- within a limit that is not negative, and there are at most as many write-backs as records.
  pub walk_with-Tallied :
      (d : DirectoryLaws dir) (filter : Filter) (o : O) (w : State D (Session T)) (m : Time)
      (us : List User)
      → Delivered syncer st dir obs d filter o w us
      → (walk_with syncer st dir obs filter o w).0 ≡ ok m
      → Tallied syncer.max_malformed us (walk_with syncer st dir obs filter o w).2.rest.stats
  walk_with-Tallied d filter o w m us run success =
      rw (session-walk_with syncer st dir obs filter o w).0 (
        Ends-ok _ (Unit {0}) _ (walk_with-ok syncer st dir obs filter o w m success).0 (
          Run-rule (λ vs v. Tallied syncer.max_malformed vs (stats_of v)) (λ _ _. Unit {0})
            (λ vs x v h p. rw h.0 p) (λ vs u v v' p eq. Tallied-visit vs u v v' p eq)
            (λ _ _ _ _ _ _ _. tt) [] us _ _ _ run (omega arith)))
