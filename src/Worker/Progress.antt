-- ===== src/Worker/Progress.antt =====
-- The checkpoint and the counters over a run of the worker (cmd/directorysyncd/main.go, lines 120 to 196, and
-- cmd/directorysyncd/metrics.go, lines 32 to 44).
use helppi_scim_go.Prelude.{
  ℕ, ◌+◌, ◌≤◌, Bool, true, false, Option, none, some, List, [], ◌∷◌, ◌≡◌, refl, arith,
  if◌then◌else◌,
}
use helppi_scim_go.Exec.{Exec, Result, ok, err, Error}
use helppi_scim_go.Scim.Types.{Time, ProviderConfig}
use helppi_scim_go.Store.Types.{Store}
use helppi_scim_go.Store.Laws.{StoreLaws, KeepsForward}
use helppi_scim_go.Directory.Types.{Syncer}
use helppi_scim_go.Directory.Interface.{Directory}
use helppi_scim_go.Directory.Run.{DirectoryLaws}
use helppi_scim_go.Directory.Cycle.{incremental, full}
use helppi_scim_go.Directory.Cycle.Checkpoint.{incremental-Forward}
use helppi_scim_go.Directory.Cycle.FullCheckpoint.{full-Forward}
use helppi_scim_go.Worker.Counters.{record_cycle, failure}
use helppi_scim_go.Worker.{
  Launch, Event, done, full_due, incremental_due, Worker, syncer_of, start_error, preflight,
  run_full, run_incremental, loop, cycles, after_preflight, after_start, run,
}

-- The cycles that the loop runs for what it receives.
unfoldable pub due : List Event → ℕ
due [] = 0
due (done ∷ es) = 0
due (full_due ∷ es) = 1 + due es
due (incremental_due ∷ es) = 1 + due es

module _ {D T : Type 0} (st : Store T) (dir : Directory D) (laws : StoreLaws st)
    (d : DirectoryLaws dir) (keeps : KeepsForward st laws) where
  abbrev mark : Worker D T → Time
  mark w = laws.mark w.cycling.rest.store

  -- After so many cycles: the checkpoint is not before the old one, the cycles are counted, and at most so many failed.
  pub record Progressed (n : ℕ) (w w' : Worker D T) : Type 0 where
    pub forward : mark w ≤ mark w'
    pub counted : w'.metrics.cycles ≡ w.metrics.cycles + n
    pub failed : w.metrics.failures ≤ w'.metrics.failures
    pub at_most : w'.metrics.failures ≤ w.metrics.failures + n

  Progressed-refl : (w : Worker D T) → Progressed 0 w w
  Progressed-refl w = record {
    forward = omega arith;
    counted = omega arith;
    failed = omega arith;
    at_most = omega arith;
  }

  Progressed-trans :
      (n m : ℕ) (w w' w'' : Worker D T)
      → Progressed n w w'
      → Progressed m w' w''
      → Progressed (n + m) w w''
  Progressed-trans n m w w' w'' h k = record {
    forward = omega (arith, h.forward, k.forward);
    counted = omega (arith, h.counted, k.counted);
    failed = omega (arith, h.failed, k.failed);
    at_most = omega (arith, h.at_most, k.at_most);
  }

  module _ (syncer : Syncer) where
    one_failure : (e : Option Error) → failure e ≤ 1
    one_failure none = omega arith
    one_failure (some e) = omega arith

    full-Progressed : (w : Worker D T) → Progressed 1 w (run_full syncer st dir w)
    unfolding run_full record_cycle
    full-Progressed w =
        let (stats, drift, e, c) = full syncer st dir w.cycling in
        record {
          forward = (full-Forward syncer st dir laws d keeps w.cycling).1;
          counted = refl;
          failed = omega arith;
          at_most = omega (arith, one_failure e);
        }

    incremental-Progressed : (w : Worker D T) → Progressed 1 w (run_incremental syncer st dir w)
    unfolding run_incremental record_cycle
    incremental-Progressed w =
        let (stats, e, c) = incremental syncer st dir w.cycling in
        record {
          forward = (incremental-Forward syncer st dir laws d keeps w.cycling).1;
          counted = refl;
          failed = omega arith;
          at_most = omega (arith, one_failure e);
        }

    loop-Progressed :
        (es : List Event) (w : Worker D T) → Progressed (due es) w (loop syncer st dir es w)
    unfolding loop due
    loop-Progressed [] w = Progressed-refl w
    loop-Progressed (done ∷ es) w = Progressed-refl w
    loop-Progressed (full_due ∷ es) w =
        let w' = run_full syncer st dir w in
        Progressed-trans 1 (due es) w w' (loop syncer st dir es w') (full-Progressed w)
          (loop-Progressed es w')
    loop-Progressed (incremental_due ∷ es) w =
        let w' = run_incremental syncer st dir w in
        Progressed-trans 1 (due es) w w' (loop syncer st dir es w') (incremental-Progressed w)
          (loop-Progressed es w')

  module _ (config : Exec D ProviderConfig) (time_now : ℕ → Time) (launch : Launch) where
    -- How many cycles a run has, from what it answers: none where it could not start, one where it runs once.
    abbrev pub cycles_of : List Event → Result (Unit {0}) → ℕ
    cycles_of es (err e) = 0
    cycles_of es (ok _) = if launch.once then 1 else 1 + due es

    cycles-Progressed :
        (es : List Event) (w : Worker D T)
        → Progressed
            (if launch.once then 1 else 1 + due es)
            w
            (cycles st dir config time_now launch es w)
    cycles-Progressed es w = once_or launch.once
      where
        w' : Worker D T
        w' = run_full (syncer_of time_now launch) st dir w

        once_or :
            (b : Bool)
            → Progressed
                (if b then 1 else 1 + due es)
                w
                (if b then w' else loop (syncer_of time_now launch) st dir es w')
        once_or true = full-Progressed (syncer_of time_now launch) w
        once_or false =
            let syncer = syncer_of time_now launch in
            Progressed-trans 1 (due es) w w' (loop syncer st dir es w') (full-Progressed syncer w)
              (loop-Progressed syncer es w')

    abbrev Ended : List Event → Worker D T → Result (Unit {0}) × Worker D T → Type 0
    Ended es w (r, w') = Progressed (cycles_of es r) w w'

    preflight-Ended :
        (es : List Event) (o : Option Error) (w : Worker D T)
        → Ended es w (after_preflight st dir config time_now launch es o w)
    preflight-Ended es (some e) w = Progressed-refl w
    preflight-Ended es none w = cycles-Progressed es w

    start-Ended :
        (es : List Event) (o : Option Error) (w : Worker D T)
        → Ended es w (after_start st dir config time_now launch es o w)
    start-Ended es (some e) w = Progressed-refl w
    start-Ended es none w =
        let (r, e) = config w.cycling.dir in
        let h =
          preflight-Ended es (preflight r) (record w { cycling = record w.cycling { dir = e } }) in
        record { forward = h.forward; counted = h.counted; failed = h.failed; at_most = h.at_most }

    -- Over a whole run of the worker on a store that keeps no later instant as an earlier one than its
    -- checkpoint, whatever the loop receives and however its cycles end, the checkpoint never moves back; a run that starts counts the full cycle of the start and every cycle that became due, and no more of them
    -- as failed; one that does not start counts none.
    pub run-Progressed :
        (ephemeral : Option Bool) (es : List Event) (w : Worker D T)
        → let (r, w') = run st dir config time_now launch ephemeral es w in
          Progressed (cycles_of es r) w w'
    unfolding run
    run-Progressed ephemeral es w = start-Ended es (start_error launch ephemeral) w
