-- ===== src/Worker/Alerts.antt =====
-- The alerts of a whole run of the worker (cmd/directorysyncd/main.go).
use helppi_scim_go.Prelude.{Option, none, some, List, [], ◌∷◌, Bool, true, false, if◌then◌else◌, ℕ}
use helppi_scim_go.Exec.{Exec, Error}
use helppi_scim_go.Scim.Types.{Time, ProviderConfig}
use helppi_scim_go.Store.Types.{Store}
use helppi_scim_go.Directory.Types.{Syncer}
use helppi_scim_go.Directory.Interface.{Directory}
use helppi_scim_go.Directory.Run.{DirectoryLaws}
use helppi_scim_go.Directory.Alerts.{AlertedOnce}
use helppi_scim_go.Directory.Alerts.Cycles.{incremental-Quiet, full-Quiet}
use helppi_scim_go.Worker.{
  Launch, Event, done, full_due, incremental_due, Worker, run, run_full, run_incremental, loop,
  cycles, preflight, after_preflight, after_start, start_error, syncer_of,
}

module _ {D T : Type 0} (st : Store T) (dir : Directory D) (d : DirectoryLaws dir) where
  abbrev Quiet : Worker D T → Type 0
  Quiet w = AlertedOnce w.cycling.rest

  module _ (syncer : Syncer) where
    run_full-Quiet : (w : Worker D T) → Quiet w → Quiet (run_full syncer st dir w)
    unfolding run_full
    run_full-Quiet w h = full-Quiet syncer st dir d w.cycling h

    run_incremental-Quiet : (w : Worker D T) → Quiet w → Quiet (run_incremental syncer st dir w)
    unfolding run_incremental
    run_incremental-Quiet w h = incremental-Quiet syncer st dir d w.cycling h

    loop-Quiet : (es : List Event) (w : Worker D T) → Quiet w → Quiet (loop syncer st dir es w)
    unfolding loop
    loop-Quiet [] w h = h
    loop-Quiet (done ∷ es) w h = h
    loop-Quiet (full_due ∷ es) w h = loop-Quiet es (run_full syncer st dir w) (run_full-Quiet w h)
    loop-Quiet (incremental_due ∷ es) w h =
        loop-Quiet es (run_incremental syncer st dir w) (run_incremental-Quiet w h)

  module _ (config : Exec D ProviderConfig) (time_now : ℕ → Time) (launch : Launch) where
    cycles-Quiet :
        (es : List Event) (w : Worker D T)
        → Quiet w
        → Quiet (cycles st dir config time_now launch es w)
    cycles-Quiet es w h = once_or launch.once
      where
        w' : Worker D T
        w' = run_full (syncer_of time_now launch) st dir w

        once_or :
            (b : Bool) → Quiet (if b then w' else loop (syncer_of time_now launch) st dir es w')
        once_or true = run_full-Quiet (syncer_of time_now launch) w h
        once_or false =
            loop-Quiet (syncer_of time_now launch) es w'
              (run_full-Quiet (syncer_of time_now launch) w h)

    preflight-Quiet :
        (es : List Event) (o : Option Error) (w : Worker D T)
        → Quiet w
        → Quiet (after_preflight st dir config time_now launch es o w).1
    preflight-Quiet es (some e) w h = h
    preflight-Quiet es none w h = cycles-Quiet es w h

    start-Quiet :
        (es : List Event) (o : Option Error) (w : Worker D T)
        → Quiet w
        → Quiet (after_start st dir config time_now launch es o w).1
    start-Quiet es (some e) w h = h
    start-Quiet es none w h =
        let (r, c) = config w.cycling.dir in
        preflight-Quiet es (preflight r) (record w { cycling = record w.cycling { dir = c } }) h

    -- Over a whole run of the worker that starts with no key alerted twice, whatever its loop receives and however its
    -- cycles end, no key of `alertOnce` is alerted twice; the alerts of a drift report have no key.
    pub run-AlertedOnce :
        (ephemeral : Option Bool) (es : List Event) (w : Worker D T)
        → AlertedOnce w.cycling.rest
        → AlertedOnce (run st dir config time_now launch ephemeral es w).1.cycling.rest
    unfolding run
    run-AlertedOnce ephemeral es w h = start-Quiet es (start_error launch ephemeral) w h
