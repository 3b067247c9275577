-- ===== src/Directory/Walk/Refines.antt =====
-- The accounts across `walkWith` (directory/directory.go), against the specification in Directory/Spec.
use helppi_scim_go.Prelude.{
  String, false, Option, List, [], ◌∷◌, ◌++◌, ◌≡◌, refl, ◌⊎◌, inl, inr, arith, ◌∙◌, sym, ap,
}
use helppi_scim_go.Exec.{Result, ok, err, Error}
use helppi_scim_go.Scim.Types.{User, Filter, Time}
use helppi_scim_go.Store.Types.{Store}
use helppi_scim_go.Store.Laws.{StoreLaws}
use helppi_scim_go.Directory.Types.{Syncer, Session}
use helppi_scim_go.Directory.Interface.{Directory, State}
use helppi_scim_go.Directory.Spec.{Account, account, step, steps}
use helppi_scim_go.Directory.Spec.Replay.{steps-append}
use mathlib.Core.List.{append-nil}
use helppi_scim_go.Directory.Run.{Run, DirectoryLaws, Ends, Ends-ok, Run-rule}
use helppi_scim_go.Directory.Apply.Refines.{account_at, Outcome, apply-Outcome}
use helppi_scim_go.Directory.Walk.{
  Walk, Observe, start, visit, walk_with, listing, Delivered, walk_with-ok, session-walk_with,
}

abbrev pub session_state : {D T O : Type 0} → State D (Walk T O) → State D (Session T)
session_state w = record { dir = w.dir; rest = w.rest.session }

-- The account `b` is what some first ones of the records `us` make of the account `a`.
abbrev pub IsPart : List User → String → Option Account → Option Account → Type 0
IsPart us j a b = (vs zs : List User) × (us ≡ vs ++ zs) × (b ≡ steps vs j a)

module _ {D T O : Type 0} (syncer : Syncer) (st : Store T) (dir : Directory D) (laws : StoreLaws st)
    (obs : Observe O) where
  abbrev at : State D (Walk T O) → String → Option Account
  at w = account_at syncer st dir laws (session_state w)

  visit-Outcome :
      (u : User) (w : State D (Walk T O)) (j : String)
      → syncer.dry_run ≡ false
      → let (r, w') = visit syncer st dir obs u w in
        Outcome (at w j) (step u j (at w j)) (at w' j) r
  unfolding visit
  visit-Outcome u w j real = ground (arith, apply-Outcome syncer st dir laws u (session_state w) j)

  -- The accounts under `j` once the records `vs` are handled.
  abbrev After : Option Account → String → List User → State D (Walk T O) → Type 0
  After a j vs w = at w j ≡ steps vs j a

  -- The same after a callback that failed: the last record may have had no effect.
  abbrev Stopped : Option Account → String → List User → State D (Walk T O) → Type 0
  Stopped a j vs w =
      (at w j ≡ steps vs j a)
      ⊎ ((us : List User) × (u : User) × (vs ≡ us ++ u ∷ []) × (at w j ≡ steps us j a))

  After-visit :
      (a : Option Account) (j : String) (vs : List User) (u : User) (v v' : State D (Walk T O))
      → syncer.dry_run ≡ false
      → After a j vs v
      → visit syncer st dir obs u v ≡ (ok tt, v')
      → After a j (vs ++ u ∷ []) v'
  After-visit a j vs u v v' real p eq =
      ground (arith, visit-Outcome u v j, steps-append vs (u ∷ []) j a)

  Stopped-visit :
      (a : Option Account) (j : String) (vs : List User) (u : User) (v v' : State D (Walk T O))
      (e : Error)
      → syncer.dry_run ≡ false
      → After a j vs v
      → visit syncer st dir obs u v ≡ (err e, v')
      → Stopped a j (vs ++ u ∷ []) v'
  Stopped-visit a j vs u v v' e real p eq =
      let same : (at v' j ≡ at v j) ⊎ (at v' j ≡ step u j (at v j)) =
        ground (arith, visit-Outcome u v j) in
      elim same [
        | inl q ↦ inr (vs, u, refl, q ∙ p)
        | inr q ↦ inl (ground (arith, steps-append vs (u ∷ []) j a))
      ]

  visits-After :
      (us : List User) (w : State D (Walk T O)) (r : Result (Unit {0})) (w' : State D (Walk T O))
      (Reads : D → D → Type 0) (j : String)
      → syncer.dry_run ≡ false
      → Run Reads (visit syncer st dir obs) us w r w'
      → Ends (After (at w j) j us w') (Stopped (at w j) j us w') r
  visits-After us w r w' Reads j real run =
      Run-rule (After (at w j) j) (Stopped (at w j) j) (λ vs x v h p. ground arith)
        (λ vs u v v' p eq. After-visit (at w j) j vs u v v' real p eq)
        (λ vs u v v' e p eq. Stopped-visit (at w j) j vs u v v' e real p eq) [] us w r w' run refl

  -- After a walk that succeeds, every account is the one that the specification gives for the
  -- records delivered, from the account before.
  pub walk_with-steps :
      (d : DirectoryLaws dir) (filter : Filter) (o : O) (w : State D (Session T)) (m : Time)
      (us : List User) (j : String)
      → syncer.dry_run ≡ false
      → Delivered syncer st dir obs d filter o w us
      → (walk_with syncer st dir obs filter o w).0 ≡ ok m
      → account_at syncer st dir laws (walk_with syncer st dir obs filter o w).2 j
        ≡ steps us j (account_at syncer st dir laws w j)
  walk_with-steps d filter o w m us j real run h =
      let (r, v) = listing syncer st dir obs filter o w in
      let ends = visits-After us _ r v d.Reads j real run in
      let after = Ends-ok _ _ r (walk_with-ok syncer st dir obs filter o w m h).0 ends in
      ground (arith, session-walk_with syncer st dir obs filter o w)

  Stopped-IsPart :
      (us : List User) (j : String) (w v : State D (Walk T O)) (r : Result (Unit {0}))
      → Ends (After (at w j) j us v) (Stopped (at w j) j us v) r
      → IsPart us j (at w j) (at v j)
  Stopped-IsPart us j w v (ok _) h = (us, [], sym (append-nil us), h)
  Stopped-IsPart us j w v (err e) (inl h) = (us, [], sym (append-nil us), h)
  Stopped-IsPart us j w v (err e) (inr (inl h)) = (us, [], sym (append-nil us), h)
  Stopped-IsPart us j w v (err e) (inr (inr (vs, u, p, h))) = (vs, u ∷ [], p, h)

  -- However a walk ends, every account is the one that the specification gives for some first ones of the
  -- records delivered.
  pub walk_with-IsPart :
      (d : DirectoryLaws dir) (filter : Filter) (o : O) (w : State D (Session T)) (us : List User)
      (j : String)
      → syncer.dry_run ≡ false
      → Delivered syncer st dir obs d filter o w us
      → IsPart us j
          (account_at syncer st dir laws w j)
          (account_at syncer st dir laws (walk_with syncer st dir obs filter o w).2 j)
  walk_with-IsPart d filter o w us j real run =
      let (r, v) = listing syncer st dir obs filter o w in
      let (vs, zs, p, h) =
        Stopped-IsPart us j (record { dir = w.dir; rest = start w.rest o }) v r
          (visits-After us _ r v d.Reads j real run) in
      (
        vs,
        zs,
        p,
        ap (λ (x : Session T). account (laws.view x.store j))
              (session-walk_with syncer st dir obs filter o w).0
            ∙ h,
      )
