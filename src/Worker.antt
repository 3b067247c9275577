-- ===== src/Worker.antt =====
-- cmd/directorysyncd/main.go: the start of the worker, and its loop of cycles. What the select statement receives is a
-- list of events; a cycle that runs into its timeout is one whose calls answer with errors.
pub mod Counters
pub mod Safety
pub mod Progress
pub mod Alerts
pub mod Endpoints
use helppi_scim_go.Prelude.{
  ℕ, String, ◌=ₛ◌, ◌+ₛ◌, Bool, true, false, not, ◌&&◌, ◌||◌, Option, none, some, List, [], ◌∷◌, ℤ,
  pos, if◌then◌else◌,
}
use helppi_scim_go.Exec.{Exec, Result, ok, err, Error, message, wrap, is_credential}
use helppi_scim_go.Scim.Types.{Time, ProviderConfig}
use helppi_scim_go.Store.Types.{Store, is_ephemeral}
use helppi_scim_go.Directory.Types.{Syncer, Session, new}
use helppi_scim_go.Directory.Interface.{Directory, State}
use helppi_scim_go.Directory.Cycle.{incremental, full}
use helppi_scim_go.Worker.Counters.{Metrics, record_cycle, heard}

-- The flags and the environment that the model reads, and the error of `scim.New`.
pub record Launch : Type 0 where
  pub base_url : String
  pub token : String
  pub page_size : ℤ
  pub once : Bool
  pub dry_run : Bool
  pub allow_memory : Bool
  pub client_error : Option Error

pub data Event : Type 0 where
  done full_due incremental_due : Event

pub record Worker (D T : Type 0) : Type 0 where
  pub cycling : State D (Session T)
  pub metrics : Metrics

-- The options that the worker builds its syncer from.
abbrev pub syncer_of : (ℕ → Time) → Launch → Syncer
syncer_of time_now launch = new time_now (record {
  page_size = launch.page_size;
  overlap = pos 0;
  max_malformed = pos 0;
  future_skew = pos 0;
  dry_run = launch.dry_run;
  now = none;
})

-- `preflight`, on the answer of `ServiceProviderConfig`.
unfoldable pub preflight : Result ProviderConfig → Option Error
preflight (err e) =
    if is_credential e then some (wrap "preflight: the credential was rejected" e) else none
preflight (ok cfg) =
    if not cfg.filter_supported
    then some (
        message
          "preflight: the directory reports no filter support, so incremental synchronization is impossible")
    else if not cfg.patch_supported
    then some (
        message
          "preflight: the directory reports no PATCH support, so our identifier cannot be written back")
    else none

-- An in-memory store, outside a dry run and without the flag that permits it.
abbrev pub is_refused : Launch → Option Bool → Bool
is_refused launch ephemeral =
    is_ephemeral ephemeral && not launch.dry_run && not launch.allow_memory

abbrev refusal : String
refusal =
    "refusing to run against a real directory with an in-memory store: "
    +ₛ "it would create new helppers and overwrite every externalId in the directory. "
    +ₛ "Use -dry-run to see what a cycle would do, plug in a real store.Store, "
    +ₛ "or pass -allow-ephemeral-store if this really is a throwaway directory"

-- The checks of `run` before anything is read: the credential, the client, the store.
abbrev pub start_error : Launch → Option Bool → Option Error
start_error launch ephemeral =
    if launch.base_url =ₛ "" || launch.token =ₛ ""
    then some (message "DIRECTORY_BASE_URL and DIRECTORY_TOKEN are required")
    else elim launch.client_error [
      | some e ↦ some (wrap "build client" e)
      | none ↦ if is_refused launch ephemeral then some (message refusal) else none
    ]

module _ {D T : Type 0} (syncer : Syncer) (st : Store T) (dir : Directory D) where
  unfoldable pub run_full : Worker D T → Worker D T
  run_full w =
      let (stats, drift, e, c) = full syncer st dir w.cycling in
      record {
        cycling = c;
        metrics = record_cycle stats e (heard w.cycling.rest.alerts c.rest.alerts w.metrics);
      }

  unfoldable pub run_incremental : Worker D T → Worker D T
  run_incremental w =
      let (stats, e, c) = incremental syncer st dir w.cycling in
      record {
        cycling = c;
        metrics = record_cycle stats e (heard w.cycling.rest.alerts c.rest.alerts w.metrics);
      }

  -- The loop over the events, up to the end of the context.
  unfoldable pub loop : List Event → Worker D T → Worker D T
  unfolding run_full run_incremental
  loop [] w = w
  loop (done ∷ es) w = w
  loop (full_due ∷ es) w = loop es (run_full w)
  loop (incremental_due ∷ es) w = loop es (run_incremental w)

module _ {D T : Type 0} (st : Store T) (dir : Directory D) (config : Exec D ProviderConfig)
    (time_now : ℕ → Time) (launch : Launch) where
  -- The cycles: one full cycle, and then the loop unless the worker runs once.
  abbrev pub cycles : List Event → Worker D T → Worker D T
  cycles es w =
      let w' = run_full (syncer_of time_now launch) st dir w in
      if launch.once then w' else loop (syncer_of time_now launch) st dir es w'

  abbrev pub after_preflight :
      List Event → Option Error → Worker D T → Result (Unit {0}) × Worker D T
  after_preflight es (some e) w = (err e, w)
  after_preflight es none w = (ok tt, cycles es w)

  abbrev pub after_start : List Event → Option Error → Worker D T → Result (Unit {0}) × Worker D T
  after_start es (some e) w = (err e, w)
  after_start es none w =
      let (r, d) = config w.cycling.dir in
      after_preflight es (preflight r) (record w { cycling = record w.cycling { dir = d } })

  -- `run`, on a store with the given `Ephemeral` method.
  unfoldable pub run : Option Bool → List Event → Worker D T → Result (Unit {0}) × Worker D T
  unfolding loop preflight
  run ephemeral es w = after_start es (start_error launch ephemeral) w
