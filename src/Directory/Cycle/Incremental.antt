-- ===== src/Directory/Cycle/Incremental.antt =====
-- The accounts and the checkpoint across `Incremental` (directory/directory.go), where it succeeds.
use helppi_scim_go.Prelude.{
  All-map, ◌≤◌, String, false, ◌≡◌, arith, ap, ◌∙◌, sym, none, Option, List, ◌⊎◌, inl, inr, All,
  subst,
}
use helppi_scim_go.Exec.{Result, ok, Error}
use helppi_scim_go.Scim.Types.{User, Time}
use helppi_scim_go.Store.Types.{Store}
use helppi_scim_go.Store.Laws.{StoreLaws}
use helppi_scim_go.Directory.Types.{Syncer, Session, Stats}
use helppi_scim_go.Directory.Interface.{Directory, State}
use helppi_scim_go.Directory.Run.{DirectoryLaws}
use helppi_scim_go.Directory.Spec.{account, steps}
use helppi_scim_go.Directory.Apply.Usable.{usable}
use helppi_scim_go.Directory.Apply.Refines.{account_at}
use helppi_scim_go.Directory.Apply.Checkpoint.{mark_at}
use helppi_scim_go.Directory.Walk.{Delivered}
use helppi_scim_go.Directory.Walk.Refines.{walk_with-steps}
use helppi_scim_go.Directory.Walk.Watermark.{walk_with-held}
use helppi_scim_go.Directory.Cycle.{
  filter_since, incremental, begun, incremental_walk, timed, settle,
}
use helppi_scim_go.Directory.Cycle.Inversion.{incremental-inversion, started_at}
use helppi_scim_go.Directory.Cycle.Checkpoint.{advance-Advanced, view-advance, mark-walk_with}

module _ {D T : Type 0} (syncer : Syncer) (st : Store T) (dir : Directory D) (laws : StoreLaws st)
    (d : DirectoryLaws dir) where
  abbrev mark_of : State D (Session T) → Time
  mark_of w = mark_at syncer st dir laws w

  -- The walk of the cycle from the store's checkpoint.
  abbrev walked : State D (Session T) → Result Time × Unit {0} × State D (Session T)
  walked w = incremental_walk syncer st dir (mark_of w) (begun syncer st dir w).1

  -- The records that the walk of an incremental cycle delivers: the cycle reads the clock and the
  -- store's checkpoint first, and asks for the records since that checkpoint less the overlap.
  abbrev pub Fetched : State D (Session T) → List User → Type 0
  Fetched w us =
      Delivered {O = Unit {0}} syncer st dir none d (filter_since syncer.overlap (mark_of w)) tt
        (begun syncer st dir w).1 us

  checkpoint_read :
      (w : State D (Session T)) (cp : Time) → (begun syncer st dir w).0 ≡ ok cp → cp ≡ mark_of w
  checkpoint_read w cp h = ground (arith, laws.checkpoint_answer w.rest.store)

  pub from_mark :
      (w : State D (Session T))
      → (incremental syncer st dir w).1 ≡ none
      → (m : Time) × ((walked w).0 ≡ ok m)
        × (incremental syncer st dir w
            ≡ settle syncer st dir
                (mark_of w)
                m
                (timed syncer st dir (started_at syncer st dir w) (walked w).2))
  from_mark w h =
      let (cp, m, read, walk, e) = incremental-inversion syncer st dir w h in
      subst
        (λ c.
          (m : Time) × ((incremental_walk syncer st dir c (begun syncer st dir w).1).0 ≡ ok m)
          × (incremental syncer st dir w
              ≡ settle syncer st dir c m (
                  timed syncer st dir (started_at syncer st dir w)
                    (incremental_walk syncer st dir c (begun syncer st dir w).1).2)))
        (checkpoint_read w cp read) (m, walk, e)

  view-settle :
      (cp m started : Time) (w : State D (Session T)) (j : String)
      → laws.view (settle syncer st dir cp m (timed syncer st dir started w)).2.rest.store j
        ≡ laws.view w.rest.store j
  unfolding settle timed
  view-settle cp m started w j =
      view-advance syncer st dir laws cp m (timed syncer st dir started w) j

  -- After an incremental cycle of a real run that succeeds, every account is the one that the
  -- specification gives for the records fetched, from the account before the cycle.
  pub incremental-steps :
      (w : State D (Session T)) (us : List User) (j : String)
      → syncer.dry_run ≡ false
      → Fetched w us
      → (incremental syncer st dir w).1 ≡ none
      → account_at syncer st dir laws (incremental syncer st dir w).2 j
        ≡ steps us j (account_at syncer st dir laws w j)
  incremental-steps w us j real run success =
      let (m, walk, e) = from_mark w success in
      let (_, _, w') = walked w in
      ap (λ (x : Stats × Option Error × State D (Session T)). account (laws.view x.2.rest.store j))
        e
      ∙ ap account (view-settle (mark_of w) m (started_at syncer st dir w) w' j)
      ∙ walk_with-steps syncer st dir laws none d (filter_since syncer.overlap (mark_of w)) tt
          (begun syncer st dir w).1 m us j real run walk
      ∙ ap (λ o. steps us j (account o)) (laws.checkpoint_view w.rest.store j)

  mark-settle :
      (cp m started : Time) (w : State D (Session T))
      → mark_of w ≡ cp
      → let x = settle syncer st dir cp m (timed syncer st dir started w) in
        x.1 ≡ none → (mark_of x.2 ≡ cp) ⊎ (mark_of x.2 ≡ laws.kept m)
  unfolding settle timed
  mark-settle cp m started w h success =
      ground (arith, advance-Advanced syncer st dir laws cp m (timed syncer st dir started w))

  -- After an incremental cycle that succeeds the store's checkpoint is the old one or what it keeps of the
  -- watermark of the cycle's walk.
  mark-incremental :
      (w : State D (Session T))
      → (incremental syncer st dir w).1 ≡ none
      → (m : Time) × ((walked w).0 ≡ ok m)
        × ((mark_of (incremental syncer st dir w).2 ≡ mark_of w)
            ⊎ (mark_of (incremental syncer st dir w).2 ≡ laws.kept m))
  mark-incremental w success =
      let (m, walk, e) = from_mark w success in
      let (_, _, w') = walked w in
      let kept : mark_of w' ≡ mark_of w =
        mark-walk_with syncer st dir laws d none (filter_since syncer.overlap (mark_of w)) tt
          (begun syncer st dir w).1
        ∙ laws.checkpoint_mark w.rest.store in
      (
        m,
        walk,
        rw e (
            mark-settle (mark_of w) m (started_at syncer st dir w) w' kept
              (sym (ap (λ (x : Stats × Option Error × State D (Session T)). x.1) e) ∙ success)),
      )

  not_past :
      (m : Time) (u : User)
      → (usable u ≡ false → (u.last_modified ≡ 0) ⊎ (m ≤ u.last_modified))
      → usable u ≡ false
      → (u.last_modified ≡ 0) ⊎ (laws.kept m ≤ u.last_modified)
  not_past m u h bad = elim (h bad) [
    | inl zero_time ↦ inl zero_time
    | inr le ↦ inr (omega (arith, le, laws.kept_le m))
  ]

  -- After an incremental cycle that succeeds the store's checkpoint is the old one, or it is not past
  -- any unusable record with a timestamp that the cycle fetched.
  pub incremental-held :
      (w : State D (Session T)) (us : List User)
      → Fetched w us
      → (incremental syncer st dir w).1 ≡ none
      → let cp = mark_of (incremental syncer st dir w).2 in
        (cp ≡ mark_of w)
        ⊎ All (λ u. usable u ≡ false → (u.last_modified ≡ 0) ⊎ (cp ≤ u.last_modified)) us
  incremental-held w us run success =
      let (m, walk, moved) = mark-incremental w success in
      elim moved [
        | inl same ↦ inl same
        | inr e ↦ inr (
            rw e (
              All-map _ _ us (not_past m) (
                walk_with-held syncer st dir none d (filter_since syncer.overlap (mark_of w)) tt
                  (begun syncer st dir w).1 m us run walk)))
      ]
