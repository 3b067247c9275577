-- ===== src/Directory/Cycle/Progress.antt =====
-- How far `Incremental` (directory/directory.go) brings the checkpoint.
use helppi_scim_go.Prelude.{
  ℕ, ◌≤◌, false, ◌≡◌, arith, ap, sym, subst, none, Option, List, [], ◌∷◌, ◌⊎◌, inl, inr, All,
  All-map, pos, ◌≤ℤ◌, ◌+ℤ◌, ◌∙◌,
}
use helppi_scim_go.Exec.{Error}
use helppi_scim_go.Scim.Types.{User, Time}
use helppi_scim_go.Store.Types.{Store}
use helppi_scim_go.Store.Laws.{StoreLaws}
use helppi_scim_go.Directory.Types.{Syncer, Session, Stats}
use helppi_scim_go.Directory.Interface.{Directory, State}
use helppi_scim_go.Directory.Run.{DirectoryLaws}
use helppi_scim_go.Directory.Apply.{alert_once}
use helppi_scim_go.Directory.Apply.Checkpoint.{mark_at}
use helppi_scim_go.Directory.Walk.Watermark.{
  CoveredBy, IsQuiet, Issued, walk_with-covers, walk_with-Issued,
}
use helppi_scim_go.Directory.Cycle.{
  filter_since, advance, incremental, begun, incremental_walk, timed, settle,
}
use helppi_scim_go.Directory.Cycle.Inversion.{started_at}
use helppi_scim_go.Directory.Cycle.Checkpoint.{incremental-Moved}
use helppi_scim_go.Directory.Cycle.Incremental.{Fetched, from_mark}

-- A timestamp that no reading of the clock finds further ahead than the syncer allows.
abbrev pub IsDue : Syncer → Time → Type 0
IsDue syncer at = (n : ℕ) → pos at ≤ℤ pos (syncer.clock n) +ℤ syncer.future_skew

Issued-IsDue :
    (syncer : Syncer) (m : Time) (us : List User)
    → Issued m us
    → All (λ u. IsDue syncer u.last_modified) us
    → (m ≡ 0) ⊎ IsDue syncer m
Issued-IsDue syncer m us (inl zero_time) h = inl zero_time
Issued-IsDue syncer m [] (inr i) h = elim i [ ]
Issued-IsDue syncer m (u ∷ us) (inr (inl e)) h = inr (subst (IsDue syncer) e h.0)
Issued-IsDue syncer m (u ∷ us) (inr (inr i)) h = Issued-IsDue syncer m us (inr i) h.1

module _ {D T : Type 0} (syncer : Syncer) (st : Store T) (dir : Directory D) where
  advance-reaches :
      (cp m : Time) (w : State D (Session T))
      → syncer.dry_run ≡ false
      → (m ≡ 0) ⊎ IsDue syncer m
      → (advance syncer st dir cp m w).1 ≡ none
      → m ≤ (advance syncer st dir cp m w).0
  unfolding advance alert_once
  advance-reaches cp m w real (inl zero_time) success = ground arith
  advance-reaches cp m w real (inr due) success = ground (arith, due w.rest.readings)

  settle-reaches :
      (cp m : Time) (w : State D (Session T))
      → syncer.dry_run ≡ false
      → (m ≡ 0) ⊎ IsDue syncer m
      → (settle syncer st dir cp m w).1 ≡ none
      → m ≤ (settle syncer st dir cp m w).0.checkpoint
  unfolding settle
  settle-reaches cp m w real due success = advance-reaches cp m w real due success

module _ {D T : Type 0} (syncer : Syncer) (st : Store T) (dir : Directory D) (laws : StoreLaws st)
    (d : DirectoryLaws dir) where
  covered : (m at : Time) (us : List User) → m ≤ at → All (CoveredBy m) us → All (CoveredBy at) us
  covered m at us le h = All-map (CoveredBy m) (CoveredBy at) us (λ u c q. omega (arith, c q, le)) h

  incremental-covers :
      (w : State D (Session T)) (us : List User)
      → syncer.dry_run ≡ false
      → Fetched syncer st dir laws d w us
      → (incremental syncer st dir w).1 ≡ none
      → All IsQuiet us
      → All (λ u. IsDue syncer u.last_modified) us
      → All (CoveredBy (incremental syncer st dir w).0.checkpoint) us
  incremental-covers w us real run success quiet due =
      let cp = mark_at syncer st dir laws w in
      let (m, walk, e) = from_mark syncer st dir laws d w success in
      let w₁ = (begun syncer st dir w).1 in
      let filter = filter_since syncer.overlap cp in
      let v =
        timed syncer st dir (started_at syncer st dir w) (incremental_walk syncer st dir cp w₁).2 in
      let ok_end : (settle syncer st dir cp m v).1 ≡ none =
        sym (ap (λ (x : Stats × Option Error × State D (Session T)). x.1) e) ∙ success in
      let issued = walk_with-Issued syncer st dir none d filter tt w₁ m us run walk in
      let reach =
        settle-reaches syncer st dir cp m v real (Issued-IsDue syncer m us issued due) ok_end in
      rw e (
        covered m _ us reach
          (walk_with-covers syncer st dir none d filter tt w₁ m us run walk quiet))

  -- A store's checkpoint where a cycle that succeeded reports `at`: that instant, or what the store keeps of it.
  abbrev pub IsStored : Time → State D (Session T) → Type 0
  IsStored at w =
      (mark_at syncer st dir laws w ≡ at) ⊎ (mark_at syncer st dir laws w ≡ laws.kept at)

  moved-IsStored :
      (w : State D (Session T))
      → (incremental syncer st dir w).1 ≡ none
      → IsStored (incremental syncer st dir w).0.checkpoint (incremental syncer st dir w).2
  moved-IsStored w success = ground (arith, success, incremental-Moved syncer st dir laws d w)

  -- An incremental cycle of a real run that succeeds, and of which every unusable record is without a timestamp and no
  -- record is dated further ahead of the clock than the allowed skew, brings the checkpoint forward: the one that it
  -- reports is at or past every usable record fetched, and the store's is that one or what it keeps of it.
  pub incremental-advances :
      (w : State D (Session T)) (us : List User)
      → syncer.dry_run ≡ false
      → Fetched syncer st dir laws d w us
      → (incremental syncer st dir w).1 ≡ none
      → All IsQuiet us
      → All (λ u. IsDue syncer u.last_modified) us
      → let (stats, _, w') = incremental syncer st dir w in
        All (CoveredBy stats.checkpoint) us × IsStored stats.checkpoint w'
  incremental-advances w us real run success quiet due =
      (incremental-covers w us real run success quiet due, moved-IsStored w success)
