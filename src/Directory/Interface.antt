-- ===== src/Directory/Interface.antt =====
-- The interface `Directory` of directory/directory.go, lines 23 to 27.
use helppi_scim_go.Prelude.{String, ℤ}
use helppi_scim_go.Exec.{Exec}
use helppi_scim_go.Scim.Types.{User, Filter}

-- The state of the partner directory beside everything else that a call may change.
pub record State (D X : Type 0) : Type 0 where
  pub dir : D
  pub rest : X

-- `list_users X filter page_size fn` runs `fn` on the records of a walk; `X` is the type of what
-- `fn` changes outside the directory.
pub record Directory (D : Type 0) : Type 1 where
  pub list_users :
      (X : Type 0) → Filter → ℤ → (User → Exec (State D X) (Unit {0})) → Exec (State D X) (Unit {0})
  pub patch_external_id : String → String → Exec D User
