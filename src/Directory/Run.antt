-- ===== src/Directory/Run.antt =====
-- What the reconciler relies on in `ListUsers` (its comment in scim/client.go): the callback runs
-- once for each record, in order, and its error ends the walk and is returned unchanged. In between,
-- and at the end, the directory's state moves as reading it may move it.
use helppi_scim_go.Prelude.{◌≡◌, List, [], ◌∷◌, ◌++◌, ◌⊎◌, inl, inr, ℤ, arith}
use helppi_scim_go.Exec.{Exec, Result, ok, err, Error}
use helppi_scim_go.Scim.Types.{User, Filter}
use helppi_scim_go.Directory.Interface.{State, Directory}
use mathlib.Core.List.{append_assoc, append-nil}

-- `v` is `w` after the directory was only read.
abbrev pub Read : {D X : Type 0} → (D → D → Type 0) → State D X → State D X → Type 0
Read Reads w v = (v.rest ≡ w.rest) × Reads w.dir v.dir

-- A walk that ran the callback `fn` on a list of records.
pub data Run {D X : Type 0} (Reads : D → D → Type 0) (fn : User → Exec (State D X) (Unit {0}))
    : List User → State D X → Result (Unit {0}) → State D X → Type 0 where
  stops : (w v : State D X) (r : Result (Unit {0})) → Read Reads w v → Run Reads fn [] w r v
  aborts :
      (w v : State D X) (u : User) (e : Error) (w' : State D X)
      → Read Reads w v
      → fn u v ≡ (err e, w')
      → Run Reads fn (u ∷ []) w (err e) w'
  calls :
      (w v : State D X) (u : User) (us : List User) (v' : State D X) (r : Result (Unit {0}))
      (w' : State D X)
      → Read Reads w v
      → fn u v ≡ (ok tt, v')
      → Run Reads fn us v' r w'
      → Run Reads fn (u ∷ us) w r w'

pub record DirectoryLaws {D : Type 0} (dir : Directory D) : Type 1 where
  pub Reads : D → D → Type 0
  pub Reads-refl : (d : D) → Reads d d
  pub Reads-trans : (d e f : D) → Reads d e → Reads e f → Reads d f
  pub list_users_runs :
      (X : Type 0) (filter : Filter) (size : ℤ) (fn : User → Exec (State D X) (Unit {0}))
      (w : State D X)
      → (us : List User) × Run Reads fn us w
          (dir.list_users X filter size fn w).0
          (dir.list_users X filter size fn w).1

-- How a walk ends: with `P` on success, and on an error with `P`, or with `Q` if the callback failed.
abbrev pub Ends : Type 0 → Type 0 → Result (Unit {0}) → Type 0
Ends P Q (ok _) = P
Ends P Q (err _) = P ⊎ Q

ends : (r : Result (Unit {0})) (A B : Type 0) → A → Ends A B r
ends (ok x) A B a = a
ends (err e) A B a = inl a

-- The rule for walks: `P` holds of the records handled so far and the state, reads keep it, and a
-- callback that succeeds extends it; one that fails ends the walk with `Q`.
module _ {D X : Type 0} {Reads : D → D → Type 0} {fn : User → Exec (State D X) (Unit {0})}
    (P Q : List User → State D X → Type 0)
    (read : (vs : List User) (w v : State D X) → Read Reads w v → P vs w → P vs v)
    (step : (vs : List User) (u : User) (v v' : State D X)
      → P vs v
      → fn u v ≡ (ok tt, v')
      → P (vs ++ u ∷ []) v')
    (failed : (vs : List User) (u : User) (v v' : State D X) (e : Error)
      → P vs v
      → fn u v ≡ (err e, v')
      → Q (vs ++ u ∷ []) v') where
  pub Run-rule :
      (vs us : List User) (w : State D X) (r : Result (Unit {0})) (w' : State D X)
      → Run Reads fn us w r w'
      → P vs w
      → Ends (P (vs ++ us) w') (Q (vs ++ us) w') r
  Run-rule vs us w r w' (stops w₀ v r₀ h) p = rw append-nil (ends r _ _ (read vs w w' h p))
  Run-rule vs us w r w' (aborts w₀ v u e w'₀ h eq) p = inr (failed vs u v w' e (read vs w v h p) eq)
  Run-rule vs us w r w' (calls w₀ v u us₀ v' r₀ w'₀ h eq rest) p =
      rw (← append_assoc vs (u ∷ []) us₀)
        (Run-rule (vs ++ u ∷ []) us₀ v' r w' rest (step vs u v v' (read vs w v h p) eq))

pub Ends-ok : (P Q : Type 0) (r : Result (Unit {0})) {x : Unit {0}} → r ≡ ok x → Ends P Q r → P
Ends-ok P Q (ok x) h p = p
Ends-ok P Q (err e) h p = absurd (ground arith)
