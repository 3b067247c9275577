-- ===== src/Examples/Cycles.antt =====
-- The theorems on whole cycles at a first cycle over three records, with the reference store.
use helppi_scim_go.Prelude.{
  not, ◌&&◌, true, false, none, some, ◌≡◌, refl, ◌⊎◌, itoa, contains, ◌+ℤ◌, [], ◌∷◌, ◌≤◌, All,
}
use helppi_scim_go.Exec.{is_not_found}
use helppi_scim_go.Scim.Types.{primary_email}
use helppi_scim_go.Store.Memory.{
  helpper_by_directory_id, create_helpper, enabled_helppers, checkpoint, set_checkpoint,
}
use helppi_scim_go.Store.Memory.Laws.{Valid, memory-StoreLaws}
use helppi_scim_go.Directory.Types.{Session}
use helppi_scim_go.Directory.Interface.{State}
use helppi_scim_go.Directory.Spec.{steps}
use helppi_scim_go.Directory.Apply.{
  validate, looked_up, apply, write_back, ensure_helpper, sync_state, repair,
}
use helppi_scim_go.Directory.Apply.Usable.{usable}
use helppi_scim_go.Directory.Apply.Refines.{account_at}
use helppi_scim_go.Directory.Apply.Checkpoint.{mark_at}
use helppi_scim_go.Directory.Walk.{visit, walk_with, start}
use helppi_scim_go.Directory.Walk.DryRun.{Untouched}
use helppi_scim_go.Directory.Cycle.{
  incremental, incremental_from, incremental_walked, filter_since, advance, begun, full,
}
use helppi_scim_go.Directory.Cycle.Incremental.{Fetched, incremental-steps, incremental-held}
use helppi_scim_go.Directory.Cycle.Checkpoint.{Forward, incremental-Forward}
use helppi_scim_go.Directory.Cycle.DryRun.{incremental-dry_run}
use helppi_scim_go.Directory.Cycle.{
  full_from, full_walked, compare_local, see, absent, nothing_seen,
}
use helppi_scim_go.Directory.Cycle.Absent.{ids_of, full-absent}
use helppi_scim_go.Store.Laws.{is_enabled}
use helppi_scim_go.Directory.Cycle.FullSteps.{AllFetched, full-steps}
use helppi_scim_go.Directory.Cycle.FullCheckpoint.{full-Forward}
use helppi_scim_go.Examples.Setup.{
  serving-DirectoryLaws, people, worker, cold, base, laws, keeps_forward, site, site_laws, Patches,
  each, each-Run, next-Run,
}

-- What a run of the program unfolds.
unfoldable pub program : Unit {0}
unfolding incremental incremental_from incremental_walked filter_since advance walk_with visit apply
    validate looked_up write_back ensure_helpper sync_state repair helpper_by_directory_id
    create_helpper checkpoint set_checkpoint is_not_found each primary_email itoa contains ◌+ℤ◌
    memory-StoreLaws
program = tt

first_cycle : (incremental (worker false) base site cold).1 ≡ none
unfolding program
first_cycle = refl

-- The unusable record holds the checkpoint: 3000 is its timestamp.
first_checkpoint : (incremental (worker false) base site cold).0.checkpoint ≡ 3000
unfolding program
first_checkpoint = refl

first_patches : (incremental (worker false) base site cold).2.dir ≡ ("hlp_a", "900001") ∷ []
unfolding program
first_patches = refl

fetched : Fetched (worker false) base site laws site_laws cold people
unfolding program each-Run next-Run serving-DirectoryLaws
fetched =
    (each-Run (visit (worker false) base site none) people
      (record { dir = []; rest = start (begun (worker false) base site cold).1.rest tt })).1

abbrev after_cycle : State Patches (Session Valid)
after_cycle = (incremental (worker false) base site cold).2

incremental-steps_example :
    account_at (worker false) base site laws after_cycle "hlp_a"
    ≡ steps people "hlp_a" (account_at (worker false) base site laws cold "hlp_a")
incremental-steps_example =
    incremental-steps (worker false) base site laws site_laws cold people "hlp_a" refl fetched
      first_cycle

incremental-held_example :
    (mark_at (worker false) base site laws after_cycle ≡ mark_at (worker false) base site laws cold)
    ⊎ All
        (λ u.
          usable u ≡ false
          → (u.last_modified ≡ 0)
            ⊎ (mark_at (worker false) base site laws after_cycle ≤ u.last_modified))
        people
incremental-held_example =
    incremental-held (worker false) base site laws site_laws cold people fetched first_cycle

incremental-Forward_example :
    let (stats, e, w') = incremental (worker false) base site cold in
    Forward (worker false) base site laws (mark_at (worker false) base site laws cold) stats e w'
incremental-Forward_example =
    incremental-Forward (worker false) base site laws site_laws keeps_forward cold

incremental-dry_run_example :
    Untouched
      (worker true)
      base
      site
      refl
      laws
      site_laws
      "hlp_a"
      cold
      (incremental (worker true) base site cold).2
incremental-dry_run_example =
    incremental-dry_run (worker true) base site refl laws site_laws cold "hlp_a"

full_program : Unit {0}
unfolding program full full_from full_walked compare_local see absent enabled_helppers
full_program = tt

first_full : (full (worker false) base site cold).2 ≡ none
unfolding full_program
first_full = refl

all_fetched : AllFetched (worker false) base site laws site_laws cold people
unfolding full_program each-Run next-Run serving-DirectoryLaws
all_fetched =
    (each-Run (visit (worker false) base site (some see)) people (record {
      dir = [];
      rest = start (begun (worker false) base site cold).1.rest nothing_seen;
    })).1

full-steps_example :
    account_at (worker false) base site laws (full (worker false) base site cold).3 "hlp_a"
    ≡ steps people "hlp_a" (account_at (worker false) base site laws cold "hlp_a")
full-steps_example =
    full-steps (worker false) base site laws site_laws cold people "hlp_a" refl all_fetched
      first_full

full-Forward_example :
    let (stats, _, e, w') = full (worker false) base site cold in
    Forward (worker false) base site laws (mark_at (worker false) base site laws cold) stats e w'
full-Forward_example = full-Forward (worker false) base site laws site_laws keeps_forward cold

full-absent_example :
    let (_, drift, _, w') = full (worker false) base site cold in
    (contains "hlp_z" drift.absent_from_directory
      ≡ (is_enabled (laws.view w'.rest.store "hlp_z") && not (contains "hlp_z" (ids_of people))))
    × ((worker false).dry_run ≡ false
        → contains "hlp_z" (ids_of people) ≡ false
        → account_at (worker false) base site laws w' "hlp_z"
          ≡ account_at (worker false) base site laws cold "hlp_z")
full-absent_example =
    full-absent (worker false) base site laws site_laws cold people "hlp_z" all_fetched first_full
