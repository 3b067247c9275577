-- ===== src/Examples/Worker.antt =====
-- Runs of the worker against the directory of three records.
use helppi_scim_go.Prelude.{true, false, none, some, List, [], ◌∷◌, refl, inl, pos}
use helppi_scim_go.Exec.{Exec, ok}
use helppi_scim_go.Scim.Types.{ProviderConfig}
use helppi_scim_go.Store.Memory.Laws.{Valid}
use helppi_scim_go.Worker.{Launch, Event, done, full_due, incremental_due, Worker, run}
use helppi_scim_go.Worker.Counters.{no_metrics}
use helppi_scim_go.Worker.Safety.{IsUntouched, run-IsUntouched}
use helppi_scim_go.Directory.Alerts.{AlertedOnce}
use helppi_scim_go.Worker.Alerts.{run-AlertedOnce}
use helppi_scim_go.Examples.Setup.{keeps_forward}
use helppi_scim_go.Worker.Progress.{Progressed, cycles_of, run-Progressed}
use helppi_scim_go.Examples.Setup.{
  Patches, clock, cold, base, laws, site, site_laws, serving-DirectoryLaws,
}

abbrev launch : Launch
launch = record {
  base_url = "https://directory.example/scim/v2";
  token = "secret";
  page_size = pos 200;
  once = false;
  dry_run = false;
  allow_memory = false;
  client_error = none;
}

abbrev dry_launch : Launch
dry_launch = record launch { dry_run = true }

abbrev config : Exec Patches ProviderConfig
config d = (
  ok (record {
    schemas = [];
    patch_supported = true;
    filter_supported = true;
    filter_max_results = pos 500;
  }),
  d,
)

abbrev fresh : Worker Patches Valid
fresh = record { cycling = cold; metrics = no_metrics }

abbrev events : List Event
events = incremental_due ∷ full_due ∷ done ∷ []

run-IsUntouched_example :
    IsUntouched base site laws site_laws "hlp_a" fresh
      (run base site config clock dry_launch (some true) events fresh).1
unfolding serving-DirectoryLaws
run-IsUntouched_example =
    run-IsUntouched base site laws site_laws config (λ e. refl) clock dry_launch (some true) events
      "hlp_a" fresh (inl refl)

run-Progressed_example :
    let (r, w') = run base site config clock launch none events fresh in
    Progressed base site laws site_laws keeps_forward
      (cycles_of base site laws site_laws keeps_forward config clock launch events r)
      fresh
      w'
run-Progressed_example =
    run-Progressed base site laws site_laws keeps_forward config clock launch none events fresh

run-AlertedOnce_example :
    AlertedOnce (run base site config clock launch none events fresh).1.cycling.rest
run-AlertedOnce_example =
    run-AlertedOnce base site site_laws config clock launch none events fresh (refl, tt)
