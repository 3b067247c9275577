-- ===== src/Directory/Cycle/Absent.antt =====
-- Whom a full cycle reports as absent from the directory (directory/directory.go).
use helppi_scim_go.Prelude.{
  ◌≡◌, String, ◌=ₛ◌, false, not, ◌&&◌, ◌||◌, arith, ap, ◌∙◌, refl, some, none, Option, List, [],
  ◌∷◌, ◌++◌, map, contains, eq_iff,
}
use helppi_scim_go.Exec.{Result, ok, err, Error}
use helppi_scim_go.Scim.Types.{Time, everything, User}
use helppi_scim_go.Store.Types.{Store, Helpper}
use helppi_scim_go.Store.Laws.{StoreLaws, ListAnswer, is_enabled}
use helppi_scim_go.Directory.Types.{Syncer, Session, Drift, Stats}
use helppi_scim_go.Directory.Interface.{Directory, State}
use helppi_scim_go.Directory.Run.{DirectoryLaws, Ends-ok, Run-rule}
use helppi_scim_go.Directory.Spec.{Account, steps, step}
use helppi_scim_go.Directory.Apply.{on_store}
use helppi_scim_go.Directory.Apply.Refines.{account_at}
use helppi_scim_go.Directory.Walk.{Walk, visit, listing, walk_with-ok, session-walk_with}
use helppi_scim_go.Directory.Cycle.{
  Seen, see, nothing_seen, full, full_walk, compare_local, timed, with_drift, begun, absent,
}
use helppi_scim_go.Directory.Cycle.Inversion.{full-inversion, started_at}
use helppi_scim_go.Directory.Cycle.FullSteps.{AllFetched, full-steps, view-compare_local}

abbrev pub ids_of : List User → List String
ids_of = map (λ u. u.id)

contains-append_one :
    (j : String) (vs : List User) (u : User)
    → contains j (ids_of (vs ++ u ∷ [])) ≡ (u.id =ₛ j || contains j (ids_of vs))
unfolding contains
contains-append_one j [] u = refl
contains-append_one j (v ∷ vs) u = ground (arith, contains-append_one j vs u)

contains-absent :
    (j : String) (seen : List String) (ps : List Helpper)
    → contains j (absent seen ps)
      ≡ (contains j (map (λ p. p.directory_id) ps) && not (contains j seen))
unfolding contains absent
contains-absent j seen [] = refl
contains-absent j seen (p ∷ ps) = ground (arith, contains-absent j seen ps, eq_iff p.directory_id j)

-- Records of other ids leave an account as it is.
steps-unseen :
    (us : List User) (j : String) (a : Option Account)
    → contains j (ids_of us) ≡ false
    → steps us j a ≡ a
unfolding contains
steps-unseen [] j a h = refl
steps-unseen (u ∷ us) j a h =
    let other : step u j a ≡ a = ground (arith, h) in
    ap (steps us j) other ∙ steps-unseen us j a (ground (arith, h))

module _ {D T : Type 0} (syncer : Syncer) (st : Store T) (dir : Directory D) (laws : StoreLaws st)
    (d : DirectoryLaws dir) where
  abbrev Noted : List User → State D (Walk T Seen) → Type 0
  Noted vs v = (j : String) → contains j v.rest.observed.seen ≡ contains j (ids_of vs)

  Noted-visit :
      (vs : List User) (u : User) (v v' : State D (Walk T Seen))
      → Noted vs v
      → visit syncer st dir (some see) u v ≡ (ok tt, v')
      → Noted (vs ++ u ∷ []) v'
  unfolding visit see contains
  Noted-visit vs u v v' p eq j = ground (arith, p j, contains-append_one j vs u)

  seen-walk :
      (w : State D (Session T)) (us : List User) (m : Time) (j : String)
      → AllFetched syncer st dir laws d w us
      → (full_walk syncer st dir (begun syncer st dir w).1).0 ≡ ok m
      → contains j (full_walk syncer st dir (begun syncer st dir w).1).1.seen
        ≡ contains j (ids_of us)
  unfolding contains
  seen-walk w us m j run walked =
      let x = (begun syncer st dir w).1 in
      let (r, v) = listing syncer st dir (some see) everything nothing_seen x in
      let noted =
        Ends-ok _ _ r (walk_with-ok syncer st dir (some see) everything nothing_seen x m walked).0 (
          Run-rule Noted (λ _ _. Unit {0})
            (λ vs a b h p i. ap (λ (z : Walk T Seen). contains i z.observed.seen) h.0 ∙ p i)
            (λ vs u a b p eq. Noted-visit vs u a b p eq) (λ vs u a b e p eq. tt) [] us _ r v run
            (λ i. refl)) in
      ap (λ (o : Seen). contains j o.seen)
        (session-walk_with syncer st dir (some see) everything nothing_seen x).2
      ∙ noted j

  listed_in :
      (v : Option Helpper) (r : Result (List Helpper)) (ps : List Helpper) (j : String)
      → r ≡ ok ps
      → ListAnswer j v r
      → contains j (map (λ p. p.directory_id) ps) ≡ is_enabled v
  listed_in v (ok qs) ps j h a = ground (arith, h, a)
  listed_in v (err e) ps j h a = absurd (ground (arith, h))

  drift-compare_local :
      (cp m : Time) (o : Seen) (ps : List Helpper) (w : State D (Session T))
      → (compare_local syncer st dir cp m o (ok ps) w).1.absent_from_directory ≡ absent o.seen ps
  unfolding compare_local with_drift
  drift-compare_local cp m o ps w = refl

  -- A full cycle that succeeds reports as absent exactly the helpers that are enabled when it ends and under whose
  -- directory id it fetched no record; and a real run leaves the account of an id that it did not fetch as it was.
  pub full-absent :
      (w : State D (Session T)) (us : List User) (j : String)
      → AllFetched syncer st dir laws d w us
      → (full syncer st dir w).2 ≡ none
      → let (_, drift, _, w') = full syncer st dir w in
        (contains j drift.absent_from_directory
          ≡ (is_enabled (laws.view w'.rest.store j) && not (contains j (ids_of us))))
        × (syncer.dry_run ≡ false
            → contains j (ids_of us) ≡ false
            → account_at syncer st dir laws w' j ≡ account_at syncer st dir laws w j)
  unfolding timed
  full-absent w us j run success =
      let (cp, m, ps, read, walk, listed, e) = full-inversion syncer st dir w success in
      let (_, o, w') = full_walk syncer st dir (begun syncer st dir w).1 in
      let v =
        (on_store {D = D} {T = T} st.enabled_helppers
          (timed syncer st dir (started_at syncer st dir w) w')).1 in
      let names =
        listed_in (laws.view w'.rest.store j) (st.enabled_helppers w'.rest.store).0 ps j listed
          (laws.enabled_answer w'.rest.store j) in
      let kept : laws.view (full syncer st dir w).3.rest.store j ≡ laws.view w'.rest.store j =
        ap (λ (x : Stats × Drift × Option Error × State D (Session T)). laws.view x.3.rest.store j)
          e
        ∙ view-compare_local syncer st dir laws d cp m o ps v j
        ∙ laws.enabled_view w'.rest.store j in
      let drift : contains j (full syncer st dir w).1.absent_from_directory
          ≡ contains j (absent o.seen ps) =
        ap
          (λ (x : Stats × Drift × Option Error × State D (Session T)).
            contains j x.1.absent_from_directory)
          e
        ∙ ap (contains j) (drift-compare_local cp m o ps v) in
      (
        ground
            (arith, drift, kept, names, contains-absent j o.seen ps, seen-walk w us m j run walk),
        λ real unseen.
            full-steps syncer st dir laws d w us j real run success
            ∙ steps-unseen us j (account_at syncer st dir laws w j) unseen,
      )
