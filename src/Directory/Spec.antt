-- ===== src/Directory/Spec.antt =====
-- What docs/INTEGRATION.md (lifecycle, section 06) promises of one directory record, with the store's
-- ids and instants left out: an abstract view of the local base and the effect of a record on it.
pub mod Replay
use helppi_scim_go.Prelude.{String, ◌=ₛ◌, Bool, Option, none, some, List, [], ◌∷◌, if◌then◌else◌}
use helppi_scim_go.Scim.Types.{User, primary_email}
use helppi_scim_go.Store.Types.{Helpper}
use helppi_scim_go.Directory.Apply.{validate, is_active}

pub record Account : Type 0 where
  pub may_work : Bool
  pub alias : String
  pub shown_as : String

abbrev pub account_of : Helpper → Account
account_of p = record { may_work = p.enabled; alias = p.login; shown_as = p.display_name }

abbrev pub account : Option Helpper → Option Account
account none = none
account (some p) = some (account_of p)

-- The account that a record asks for.
abbrev pub wanted : User → Account
wanted u = record {
  may_work = is_active u.active;
  alias = primary_email u;
  shown_as = u.display_name;
}

-- An unknown person is created only if active; a known one is brought to the record's state.
abbrev pub converge : User → Option Account → Option Account
converge u none = if is_active u.active then some (wanted u) else none
converge u (some _) = some (wanted u)

-- The account under the directory id `j` after a record: unusable records and those of other ids
-- change nothing.
abbrev pub step : User → String → Option Account → Option Account
step u j a = if validate u =ₛ "" then (if u.id =ₛ j then converge u a else a) else a

-- The account under `j` after a list of records.
abbrev pub steps : List User → String → Option Account → Option Account
steps [] j a = a
steps (u ∷ us) j a = steps us j (step u j a)
