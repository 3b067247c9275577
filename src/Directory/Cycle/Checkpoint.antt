-- ===== src/Directory/Cycle/Checkpoint.antt =====
-- The checkpoint across `advance` and `Incremental` (directory/directory.go).
use helppi_scim_go.Prelude.{
  ◌<◌, ◌≤◌, inl, inr, String, false, ◌≡◌, arith, refl, ap, ◌∙◌, sym, none, some, Option, List, [],
  ◌∷◌, ◌++◌, ◌⊎◌, pos, ◌≤ℤ◌, ◌+ℤ◌,
}
use helppi_scim_go.Exec.{Result, ok, err, Error}
use helppi_scim_go.Scim.Types.{User, Filter, Time}
use helppi_scim_go.Store.Types.{Store}
use helppi_scim_go.Store.Laws.{StoreLaws, CheckpointAnswer, KeepsForward}
use helppi_scim_go.Directory.Types.{Syncer, Session, Stats}
use helppi_scim_go.Directory.Interface.{Directory, State}
use helppi_scim_go.Directory.Run.{DirectoryLaws, Run-rule}
use helppi_scim_go.Directory.Apply.{alert_once}
use helppi_scim_go.Directory.Apply.Checkpoint.{mark_at, mark-apply}
use helppi_scim_go.Directory.Walk.{Walk, Observe, visit, walk_with, start, session-walk_with}
use helppi_scim_go.Directory.Walk.DryRun.{Ends-both}
use helppi_scim_go.Directory.Cycle.{
  filter_since, advance, incremental, incremental_from, incremental_walked, incremental_walk, begun,
  timed, settle,
}

module _ {D T : Type 0} (syncer : Syncer) (st : Store T) (dir : Directory D)
    (laws : StoreLaws st) where
  abbrev mark_of : State D (Session T) → Time
  mark_of w = mark_at syncer st dir laws w

  -- What `advance` may return from a checkpoint `cp` that is the store's, with a watermark `m`: on an
  -- error the checkpoint stands; otherwise the instant returned is `cp`, which stands, or, on a real run,
  -- a later `m` within the allowed skew of the clock, of which the store has what it keeps.
  abbrev pub Advanced :
      Time → Time → State D (Session T) → Time × Option Error × State D (Session T) → Type 0
  Advanced cp m w (at, some e, w') = (at ≡ cp) × (mark_of w' ≡ cp)
  Advanced cp m w (at, none, w') =
      ((at ≡ cp) × (mark_of w' ≡ cp))
      ⊎ ((at ≡ m)
          × (mark_of w' ≡ laws.kept m)
          × (cp < m)
          × (syncer.dry_run ≡ false)
          × (pos m ≤ℤ pos (syncer.clock w.rest.readings) +ℤ syncer.future_skew))

  -- `advance` from the store's checkpoint `cp` to a watermark `m`: on an error the checkpoint stands;
  -- otherwise the instant returned is `cp`, and the checkpoint stands, or, on a real run, a later `m`
  -- within the allowed skew of the clock, and the checkpoint is what the store keeps of it.
  pub advance-Advanced :
      (cp m : Time) (w : State D (Session T))
      → mark_of w ≡ cp
      → Advanced cp m w (advance syncer st dir cp m w)
  unfolding advance alert_once
  advance-Advanced cp m w h = ground (arith, laws.set_checkpoint_mark m w.rest.store)

  -- `advance` never touches a helpper.
  pub view-advance :
      (cp m : Time) (w : State D (Session T)) (j : String)
      → laws.view (advance syncer st dir cp m w).2.rest.store j ≡ laws.view w.rest.store j
  unfolding advance alert_once
  view-advance cp m w j = ground (arith, laws.set_checkpoint_view m w.rest.store j)

  module _ {O : Type 0} (d : DirectoryLaws dir) (obs : Observe O) where
    abbrev MarkIs : Time → List User → State D (Walk T O) → Type 0
    MarkIs cp vs v = laws.mark v.rest.session.store ≡ cp

    MarkIs-visit :
        (cp : Time) (vs : List User) (u : User) (v v' : State D (Walk T O)) (r : Result (Unit {0}))
        → MarkIs cp vs v
        → visit syncer st dir obs u v ≡ (r, v')
        → MarkIs cp (vs ++ u ∷ []) v'
    unfolding visit
    MarkIs-visit cp vs u v v' r p eq =
        let x : State D (Session T) = record { dir = v.dir; rest = v.rest.session } in
        ground (arith, mark-apply syncer st dir laws u x)

    -- A walk leaves the checkpoint where it was, however it ends.
    pub mark-walk_with :
        (filter : Filter) (o : O) (w : State D (Session T))
        → mark_of (walk_with syncer st dir obs filter o w).2 ≡ mark_of w
    mark-walk_with filter o w =
        let begin : State D (Walk T O) = record { dir = w.dir; rest = start w.rest o } in
        let (us, run) =
          d.list_users_runs (Walk T O) filter syncer.page_size (visit syncer st dir obs) begin in
        let ends =
          Run-rule (MarkIs (mark_of w)) (MarkIs (mark_of w))
            (λ vs v x h p. ap (λ (z : Walk T O). laws.mark z.session.store) h.0 ∙ p)
            (λ vs u v v' p eq. MarkIs-visit (mark_of w) vs u v v' (ok tt) p eq)
            (λ vs u v v' e p eq. MarkIs-visit (mark_of w) vs u v v' (err e) p eq) [] us begin _ _
            run refl in
        ap (λ (x : Session T). laws.mark x.store) (session-walk_with syncer st dir obs filter o w).0
        ∙ Ends-both _ _ ends

  -- What a cycle may do to the checkpoint: on an error nothing; on success the one it reports is the
  -- old one, which stands, or a later one, of which the store has what it keeps.
  abbrev pub Moved : Time → Stats → Option Error → State D (Session T) → Type 0
  Moved cp stats (some e) w' = mark_of w' ≡ cp
  Moved cp stats none w' =
      ((stats.checkpoint ≡ cp) × (mark_of w' ≡ cp))
      ⊎ ((cp < stats.checkpoint) × (mark_of w' ≡ laws.kept stats.checkpoint))

  -- What a cycle reports is not before the store's checkpoint, where it succeeds.
  abbrev pub Reported : Stats → Option Error → State D (Session T) → Type 0
  Reported stats (some e) w' = Unit
  Reported stats none w' = mark_of w' ≤ stats.checkpoint

  -- `Moved`, where the store keeps its checkpoint from falling back: the store's checkpoint is then not before the old
  -- one, and on success not past the one that the cycle reports.
  abbrev pub Forward : Time → Stats → Option Error → State D (Session T) → Type 0
  Forward cp stats e w' = Moved cp stats e w' × (cp ≤ mark_of w') × Reported stats e w'

  pub Moved-Forward :
      (t : T) (stats : Stats) (e : Option Error) (w' : State D (Session T))
      → KeepsForward st laws
      → Moved (laws.mark t) stats e w'
      → Forward (laws.mark t) stats e w'
  Moved-Forward t stats (some e) w' keeps h = (h, omega (arith, h), tt)
  Moved-Forward t stats none w' keeps (inl (at, h)) =
      (inl (at, h), omega (arith, h), omega (arith, at, h))
  Moved-Forward t stats none w' keeps (inr (lt, h)) = (
    inr (lt, h),
    omega (arith, h, keeps t stats.checkpoint (omega (arith, lt))),
    omega (arith, h, laws.kept_le stats.checkpoint),
  )

  pub settle-Moved :
      (cp m : Time) (w : State D (Session T))
      → mark_of w ≡ cp
      → let (stats, e, w') = settle syncer st dir cp m w in Moved cp stats e w'
  unfolding settle
  settle-Moved cp m w h = ground (arith, advance-Advanced cp m w)

  module _ (d : DirectoryLaws dir) where
    incremental_walked-Moved :
        (started cp : Time) (r : Result Time) (w : State D (Session T))
        → mark_of w ≡ cp
        → let (stats, e, w') = incremental_walked syncer st dir started cp r w in
          Moved cp stats e w'
    unfolding incremental_walked
    incremental_walked-Moved started cp (err e) w h = h
    incremental_walked-Moved started cp (ok m) w h =
        settle-Moved cp m (timed syncer st dir started w) h

    incremental_from-Moved :
        (started cp : Time) (r : Result Time) (w : State D (Session T))
        → mark_of w ≡ cp
        → CheckpointAnswer cp r
        → let (stats, e, w') = incremental_from syncer st dir started r w in Moved cp stats e w'
    unfolding incremental_from
    incremental_from-Moved started cp (err e) w h a = h
    incremental_from-Moved started cp (ok at) w h a =
        let (r, _, w') = incremental_walk syncer st dir at w in
        rw (← a) (
          incremental_walked-Moved started at r w'
            (mark-walk_with d none (filter_since syncer.overlap at) tt w ∙ h ∙ sym a))

    pub incremental-Moved :
        (w : State D (Session T))
        → let (stats, e, w') = incremental syncer st dir w in Moved (mark_of w) stats e w'
    unfolding incremental
    incremental-Moved w =
        incremental_from-Moved (syncer.clock w.rest.readings) (mark_of w) (begun syncer st dir w).0
          (begun syncer st dir w).1 (laws.checkpoint_mark w.rest.store)
          (laws.checkpoint_answer w.rest.store)

    -- On a store that keeps no later instant as one before its checkpoint, an incremental cycle never moves the
    -- checkpoint back. If it fails, the checkpoint stands; if it succeeds, it reports the old one, which stands, or a
    -- later one, of which the store has what it keeps, which is not past the one reported.
    pub incremental-Forward :
        (keeps : KeepsForward st laws) (w : State D (Session T))
        → let (stats, e, w') = incremental syncer st dir w in Forward (mark_of w) stats e w'
    incremental-Forward keeps w =
        let (stats, e, w') = incremental syncer st dir w in
        Moved-Forward w.rest.store stats e w' keeps (incremental-Moved w)
