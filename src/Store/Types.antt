-- ===== src/Store/Types.antt =====
-- store/store.go, lines 24 to 81: the local accounts and the interface that the reconciler talks to.
use helppi_scim_go.Prelude.{String, Bool, false, Option, none, some, List}
use helppi_scim_go.Exec.{Exec}
use helppi_scim_go.Scim.Types.{Time}

pub record Helpper : Type 0 where
  pub id : String
  pub directory_id : String
  pub login : String
  pub display_name : String
  pub enabled : Bool
  pub created_at : Time
  pub updated_at : Time

pub record NewHelpper : Type 0 where
  pub directory_id : String
  pub login : String
  pub display_name : String

pub record HelpperUpdate : Type 0 where
  pub enabled : Bool
  pub display_name : String
  pub login : String

-- A store whose contents are of type `T`. What other workers write in between is part of a call:
-- nothing ties the contents after a call to those before it, but the laws of `Store.Laws`.
pub record Store (T : Type 0) : Type 0 where
  pub helpper_by_directory_id : String → Exec T Helpper
  pub create_helpper : NewHelpper → Exec T Helpper
  pub update_helpper : String → HelpperUpdate → Exec T (Unit {0})
  pub enabled_helppers : Exec T (List Helpper)
  pub checkpoint : Exec T Time
  pub set_checkpoint : Time → Exec T (Unit {0})

-- `IsEphemeral`, of what the store's `Ephemeral` method returns: `none` is a store without it.
abbrev pub is_ephemeral : Option Bool → Bool
is_ephemeral none = false
is_ephemeral (some b) = b
