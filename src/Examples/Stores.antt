-- ===== src/Examples/Stores.antt =====
-- The theorems on the reference store at a store with one helpper.
use helppi_scim_go.Prelude.{String, List, true, false, some, ◌≡◌, refl, itoa, contains}
use helppi_scim_go.Exec.{ok}
use helppi_scim_go.Scim.Types.{Time}
use helppi_scim_go.Store.Types.{Helpper, NewHelpper, HelpperUpdate}
use helppi_scim_go.Store.Laws.{StoreLaws, AreViews, is_enabled}
use helppi_scim_go.Store.Memory.{Memory, empty, create_helpper, allocate, enabled_helppers}
use helppi_scim_go.Store.Memory.Maps.{lookup, insert}
use helppi_scim_go.Store.Memory.Valid.{IsValid, empty-IsValid, create-IsValid}
use helppi_scim_go.Store.Memory.Views.{view, names}
use helppi_scim_go.Store.Memory.Listed.{enabled_helppers-lists}
use helppi_scim_go.Store.Memory.Laws.{Valid, valid_store, memory-IsLawful}
use helppi_scim_go.Examples.Setup.{clock}

abbrev newcomer : NewHelpper
newcomer = record { directory_id = "hlp_j"; login = "joana@separador.app"; display_name = "Joana" }

-- The store after one creation.
abbrev staffed : Memory
staffed = (create_helpper clock newcomer empty).1

staffed-IsValid : IsValid staffed
staffed-IsValid = create-IsValid clock empty empty-IsValid newcomer

abbrev joana : Helpper
joana = record {
  id = "900001";
  directory_id = "hlp_j";
  login = "joana@separador.app";
  display_name = "Joana";
  enabled = true;
  created_at = 9000;
  updated_at = 9000;
}

joana_stored : view staffed "hlp_j" ≡ some joana
unfolding create_helpper allocate lookup insert itoa
joana_stored = refl

abbrev leave : HelpperUpdate
leave = record { enabled = false; display_name = "Joana"; login = "joana@separador.app" }

abbrev latecomer : NewHelpper
latecomer = record { directory_id = "hlp_k"; login = "katia@separador.app"; display_name = "Kátia" }

memory-IsLawful_example :
    (sl : StoreLaws (valid_store clock)) × ((m : Valid) (k : String) → sl.view m k ≡ view m.0 k)
    × ((m : Valid) → sl.mark m ≡ m.0.checkpoint)
    × ((at : Time) → sl.kept at ≡ at)
memory-IsLawful_example = memory-IsLawful clock

enabled_helppers-lists_example :
    (ps : List Helpper) × ((enabled_helppers staffed).0 ≡ ok ps)
    × AreViews (view staffed) ps
    × ((j : String) → contains j (names ps) ≡ is_enabled (view staffed j))
enabled_helppers-lists_example = enabled_helppers-lists staffed staffed-IsValid
