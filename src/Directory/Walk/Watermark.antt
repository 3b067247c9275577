-- ===== src/Directory/Walk/Watermark.antt =====
-- The watermark of `walkWith` (directory/directory.go) against the records that were delivered.
use helppi_scim_go.Prelude.{
  ◌≤◌, ◌<◌, true, false, List, [], ◌∷◌, ◌++◌, ◌≡◌, refl, ◌⊎◌, inl, inr, arith, All, All-append,
  All-map, All-append_left, All-append_right, Any, Any-append_left, Any-append_right, sym,
  if◌then◌else◌,
}
use helppi_scim_go.Exec.{ok}
use helppi_scim_go.Scim.Types.{User, Filter, Time}
use helppi_scim_go.Store.Types.{Store}
use helppi_scim_go.Directory.Types.{Syncer, Session}
use helppi_scim_go.Directory.Interface.{Directory, State}
use helppi_scim_go.Directory.Run.{DirectoryLaws, Ends-ok, Run-rule}
use helppi_scim_go.Directory.Apply.Usable.{usable, malformed-apply}
use helppi_scim_go.Directory.Walk.{
  Walk, Observe, hold, raise_to, visit, watermark, walk_with, listing, Delivered, walk_with-ok,
}

-- An unusable record with a timestamp is held at or before that timestamp.
abbrev HeldAt : Time → User → Type 0
HeldAt e u = usable u ≡ false → (u.last_modified ≡ 0) ⊎ ((0 < e) × (e ≤ u.last_modified))

abbrev pub CoveredBy : Time → User → Type 0
CoveredBy h u = usable u ≡ true → u.last_modified ≤ h

-- A record that holds nothing back: usable, or without a timestamp.
abbrev pub IsQuiet : User → Type 0
IsQuiet u = usable u ≡ false → u.last_modified ≡ 0

abbrev pub IssuedBy : Time → User → Type 0
IssuedBy t u = u.last_modified ≡ t

-- A timestamp that is 0 or one of the records'.
abbrev pub Issued : Time → List User → Type 0
Issued t vs = (t ≡ 0) ⊎ Any (IssuedBy t) vs

Issued-append : (t : Time) (vs : List User) (u : User) → Issued t vs → Issued t (vs ++ u ∷ [])
Issued-append t vs u (inl z) = inl z
Issued-append t vs u (inr i) = inr (Any-append_left (IssuedBy t) vs (u ∷ []) i)

module _ {D T O : Type 0} (syncer : Syncer) (st : Store T) (dir : Directory D)
    (obs : Observe O) where
  visit-marks :
      (u : User) (v v' : State D (Walk T O))
      → visit syncer st dir obs u v ≡ (ok tt, v')
      → (v'.rest.high ≡ (if usable u then raise_to v.rest.high u.last_modified else v.rest.high))
        × (v'.rest.earliest_malformed ≡ (
            if usable u
            then v.rest.earliest_malformed
            else hold v.rest.earliest_malformed u.last_modified))
  unfolding visit
  visit-marks u v v' eq =
      ground
        (arith, malformed-apply syncer st dir u (record { dir = v.dir; rest = v.rest.session }))

  -- What the two timestamps of the walk are to the records handled so far.
  record Marked (vs : List User) (v : State D (Walk T O)) : Type 0 where
    covers : All (CoveredBy v.rest.high) vs
    holds : All (HeldAt v.rest.earliest_malformed) vs
    quiet : All IsQuiet vs → v.rest.earliest_malformed ≡ 0
    high_issued : Issued v.rest.high vs
    hold_issued : Issued v.rest.earliest_malformed vs

  module _ (vs : List User) (u : User) (v v' : State D (Walk T O)) (p : Marked vs v)
      (eq : visit syncer st dir obs u v ≡ (ok tt, v')) where
    covers-visit : All (CoveredBy v'.rest.high) (vs ++ u ∷ [])
    covers-visit =
        All-append (CoveredBy v'.rest.high) vs (u ∷ [])
          (All-map (CoveredBy v.rest.high) (CoveredBy v'.rest.high) vs
            (λ x c q. ground (arith, c q, visit-marks u v v' eq)) p.covers)
          ((λ q. ground (arith, visit-marks u v v' eq)), tt)

    holds-visit : All (HeldAt v'.rest.earliest_malformed) (vs ++ u ∷ [])
    holds-visit =
        All-append (HeldAt v'.rest.earliest_malformed) vs (u ∷ [])
          (All-map (HeldAt v.rest.earliest_malformed) (HeldAt v'.rest.earliest_malformed) vs
            (λ x c q. ground (arith, c q, visit-marks u v v' eq)) p.holds)
          ((λ q. ground (arith, visit-marks u v v' eq)), tt)

    quiet-visit : All IsQuiet (vs ++ u ∷ []) → v'.rest.earliest_malformed ≡ 0
    quiet-visit h = ground (
      arith,
      p.quiet (All-append_left IsQuiet vs (u ∷ []) h),
      (All-append_right IsQuiet vs (u ∷ []) h).0,
      visit-marks u v v' eq,
    )

    Issued-visit :
        (a b : Time) → Issued a vs → (b ≡ a) ⊎ (b ≡ u.last_modified) → Issued b (vs ++ u ∷ [])
    Issued-visit a b i (inl e) = rw e (Issued-append a vs u i)
    Issued-visit a b i (inr e) = inr (Any-append_right (IssuedBy b) vs (u ∷ []) (inl (sym e)))

    Marked-visit : Marked (vs ++ u ∷ []) v'
    Marked-visit = record {
      covers = covers-visit;
      holds = holds-visit;
      quiet = quiet-visit;
      high_issued =
          Issued-visit v.rest.high v'.rest.high p.high_issued
            (ground (arith, visit-marks u v v' eq));
      hold_issued =
          Issued-visit v.rest.earliest_malformed v'.rest.earliest_malformed p.hold_issued
            (ground (arith, visit-marks u v v' eq));
    }

  marks-start :
      (v : State D (Walk T O)) → v.rest.high ≡ 0 → v.rest.earliest_malformed ≡ 0 → Marked [] v
  marks-start v p q = record {
    covers = tt;
    holds = tt;
    quiet = λ _. q;
    high_issued = inl p;
    hold_issued = inl q;
  }

  Marked-reads :
      (vs : List User) (v w : State D (Walk T O)) → w.rest ≡ v.rest → Marked vs v → Marked vs w
  Marked-reads vs v w e p = record {
    covers = rw e p.covers;
    holds = rw e p.holds;
    quiet = λ h. rw e (p.quiet h);
    high_issued = rw e p.high_issued;
    hold_issued = rw e p.hold_issued;
  }

  module _ (d : DirectoryLaws dir) (filter : Filter) (o : O) (w : State D (Session T)) (m : Time)
      (us : List User) (run : Delivered syncer st dir obs d filter o w us)
      (success : (walk_with syncer st dir obs filter o w).0 ≡ ok m) where
    walk-Marked : Marked us (listing syncer st dir obs filter o w).1
    walk-Marked = Ends-ok _ (Unit {0}) _ (walk_with-ok syncer st dir obs filter o w m success).0 (
        Run-rule Marked (λ _ _. Unit {0}) (λ vs x v h p. Marked-reads vs x v h.0 p)
          (λ vs u v v' p eq. Marked-visit vs u v v' p eq) (λ _ _ _ _ _ _ _. tt) [] us _ _ _ run
          (marks-start _ refl refl))

    m-watermark : m ≡ watermark (listing syncer st dir obs filter o w).1.rest
    m-watermark = (walk_with-ok syncer st dir obs filter o w m success).1

    -- The watermark of a walk that succeeds is not past any unusable record that has a timestamp.
    pub walk_with-held :
        All (λ u. usable u ≡ false → (u.last_modified ≡ 0) ⊎ (m ≤ u.last_modified)) us
    unfolding watermark
    walk_with-held =
        All-map (HeldAt (listing syncer st dir obs filter o w).1.rest.earliest_malformed)
          (λ u. usable u ≡ false → (u.last_modified ≡ 0) ⊎ (m ≤ u.last_modified)) us
          (λ u h q. ground (arith, h q, m-watermark)) walk-Marked.holds

    -- Where no unusable record has a timestamp, the watermark is at or past every usable record.
    pub walk_with-covers : All IsQuiet us → All (CoveredBy m) us
    unfolding watermark
    walk_with-covers quiet =
        All-map (CoveredBy (listing syncer st dir obs filter o w).1.rest.high) (CoveredBy m) us
          (λ u h q. ground (arith, h q, m-watermark, walk-Marked.quiet quiet)) walk-Marked.covers

    -- The watermark is 0 or the timestamp of a record that the directory delivered.
    pub walk_with-Issued : Issued m us
    unfolding watermark
    walk_with-Issued = ground (arith, m-watermark, walk-Marked.high_issued, walk-Marked.hold_issued)
