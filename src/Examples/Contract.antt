-- ===== src/Examples/Contract.antt =====
-- The contract tests for stores, on the reference store.
use helppi_scim_go.Prelude.{true, ◌≡◌, refl, itoa, contains}
use helppi_scim_go.Exec.{is_not_found, is_already_exists}
use helppi_scim_go.Store.Memory.{
  empty, memory_store, helpper_by_directory_id, create_helpper, allocate, update_helpper, overwrite,
  enabled_helppers, enabled_of, sort_by_directory_id, insert_sorted, checkpoint, set_checkpoint,
}
use helppi_scim_go.Store.Memory.Maps.{lookup, insert}
use helppi_scim_go.Store.Memory.Valid.{empty-IsValid}
use helppi_scim_go.Store.Memory.Laws.{valid_store, memory-StoreLaws}
use helppi_scim_go.Store.Memory.Faultless.{memory-Faultless}
use helppi_scim_go.StoreTest.{
  missing_is_not_found, create_then_read, duplicate_rejected, concurrent_create, update_applies,
  update_missing, checkpoint_round_trips, checkpoint_starts_zero, enabled_excludes_disabled,
  contract, race, joined,
}
use helppi_scim_go.StoreTest.Contract.{contract-passes}
use helppi_scim_go.Examples.Setup.{clock}

contract-passes_example : contract (valid_store clock) (empty, empty-IsValid) ≡ true
unfolding memory-StoreLaws lookup
contract-passes_example =
    contract-passes (valid_store clock) (memory-StoreLaws clock) (memory-Faultless clock)
      (empty, empty-IsValid) (λ k. refl) refl

-- The cases on the store itself, by running them.
reference_store_passes : contract (memory_store clock) empty ≡ true
unfolding contract lookup insert helpper_by_directory_id create_helpper allocate update_helpper
    overwrite enabled_helppers enabled_of sort_by_directory_id insert_sorted checkpoint
    set_checkpoint race joined contains itoa is_not_found is_already_exists missing_is_not_found
    create_then_read duplicate_rejected concurrent_create update_applies update_missing
    enabled_excludes_disabled checkpoint_round_trips checkpoint_starts_zero
reference_store_passes = refl
