-- ===== src/Worker/Safety.antt =====
-- What a run of the worker writes (cmd/directorysyncd/main.go, lines 88 to 196).
use helppi_scim_go.Prelude.{
  ℕ, String, Bool, true, false, Option, none, some, List, [], ◌∷◌, ◌≡◌, ◌⊎◌, inl, inr, refl, ◌∙◌,
  arith, if◌then◌else◌,
}
use helppi_scim_go.Exec.{Exec, Error}
use helppi_scim_go.Scim.Types.{Time, ProviderConfig}
use helppi_scim_go.Store.Types.{Store, is_ephemeral}
use helppi_scim_go.Store.Laws.{StoreLaws}
use helppi_scim_go.Directory.Types.{Syncer, new}
use helppi_scim_go.Directory.Interface.{Directory}
use helppi_scim_go.Directory.Run.{DirectoryLaws}
use helppi_scim_go.Directory.Cycle.DryRun.{incremental-dry_run, full-dry_run}
use helppi_scim_go.Worker.{
  Launch, Event, done, full_due, incremental_due, Worker, syncer_of, start_error, preflight,
  run_full, run_incremental, loop, cycles, after_preflight, after_start, run,
}

module _ {D T : Type 0} (st : Store T) (dir : Directory D) (laws : StoreLaws st)
    (d : DirectoryLaws dir) where
  -- The helpper of a directory id and the checkpoint are as they were, and the directory was only read.
  abbrev pub IsUntouched : String → Worker D T → Worker D T → Type 0
  IsUntouched j w w' =
      (laws.view w'.cycling.rest.store j ≡ laws.view w.cycling.rest.store j)
      × (laws.mark w'.cycling.rest.store ≡ laws.mark w.cycling.rest.store)
      × d.Reads w.cycling.dir w'.cycling.dir

  IsUntouched-trans :
      (j : String) (w w' w'' : Worker D T)
      → IsUntouched j w w'
      → IsUntouched j w' w''
      → IsUntouched j w w''
  IsUntouched-trans j w w' w'' (v, m, r) (v', m', r') =
      (v' ∙ v, m' ∙ m, d.Reads-trans w.cycling.dir w'.cycling.dir w''.cycling.dir r r')

  module _ (syncer : Syncer) (dry : syncer.dry_run ≡ true) (j : String) where
    full-IsUntouched : (w : Worker D T) → IsUntouched j w (run_full syncer st dir w)
    unfolding run_full
    full-IsUntouched w = full-dry_run syncer st dir dry laws d w.cycling j

    incremental-IsUntouched : (w : Worker D T) → IsUntouched j w (run_incremental syncer st dir w)
    unfolding run_incremental
    incremental-IsUntouched w = incremental-dry_run syncer st dir dry laws d w.cycling j

    loop-IsUntouched :
        (es : List Event) (w : Worker D T) → IsUntouched j w (loop syncer st dir es w)
    unfolding loop
    loop-IsUntouched [] w = (refl, refl, d.Reads-refl w.cycling.dir)
    loop-IsUntouched (done ∷ es) w = (refl, refl, d.Reads-refl w.cycling.dir)
    loop-IsUntouched (full_due ∷ es) w =
        let w' = run_full syncer st dir w in
        IsUntouched-trans j w w' (loop syncer st dir es w') (full-IsUntouched w)
          (loop-IsUntouched es w')
    loop-IsUntouched (incremental_due ∷ es) w =
        let w' = run_incremental syncer st dir w in
        IsUntouched-trans j w w' (loop syncer st dir es w') (incremental-IsUntouched w)
          (loop-IsUntouched es w')

  module _ (config : Exec D ProviderConfig) (reads : (e : D) → d.Reads e (config e).1)
      (time_now : ℕ → Time) (launch : Launch) where
    cycles-IsUntouched :
        (es : List Event) (j : String) (w : Worker D T)
        → launch.dry_run ≡ true
        → IsUntouched j w (cycles st dir config time_now launch es w)
    unfolding new
    cycles-IsUntouched es j w dry =
        let syncer = syncer_of time_now launch in
        let w' = run_full syncer st dir w in
        once_or launch.once w' (loop syncer st dir es w') (full-IsUntouched syncer dry j w) (
          IsUntouched-trans j w w' (loop syncer st dir es w') (full-IsUntouched syncer dry j w)
            (loop-IsUntouched syncer dry j es w'))
      where
        once_or :
            (b : Bool) (x y : Worker D T)
            → IsUntouched j w x
            → IsUntouched j w y
            → IsUntouched j w (if b then x else y)
        once_or true x y h k = h
        once_or false x y h k = k

    preflight-IsUntouched :
        (es : List Event) (o : Option Error) (j : String) (w : Worker D T)
        → launch.dry_run ≡ true
        → IsUntouched j w (after_preflight st dir config time_now launch es o w).1
    preflight-IsUntouched es (some e) j w dry = (refl, refl, d.Reads-refl w.cycling.dir)
    preflight-IsUntouched es none j w dry = cycles-IsUntouched es j w dry

    start-IsUntouched :
        (es : List Event) (o : Option Error) (j : String) (w : Worker D T)
        → (o ≡ none → launch.dry_run ≡ true)
        → IsUntouched j w (after_start st dir config time_now launch es o w).1
    start-IsUntouched es (some e) j w dry = (refl, refl, d.Reads-refl w.cycling.dir)
    start-IsUntouched es none j w dry =
        let (r, e) = config w.cycling.dir in
        let w' = record w { cycling = record w.cycling { dir = e } } in
        IsUntouched-trans j w w'
          (after_preflight st dir config time_now launch es (preflight r) w').1
          (refl, refl, reads w.cycling.dir) (preflight-IsUntouched es (preflight r) j w' (dry refl))

    started-dry :
        (ephemeral : Option Bool)
        → (launch.dry_run ≡ true)
          ⊎ ((is_ephemeral ephemeral ≡ true) × (launch.allow_memory ≡ false))
        → start_error launch ephemeral ≡ none
        → launch.dry_run ≡ true
    started-dry ephemeral (inl dry) h = dry
    started-dry ephemeral (inr (gone, unset)) h = ground arith

    -- A worker that runs dry, or that has an in-memory store without the permission for it, writes nothing, whatever
    -- its loop receives: every helper and the checkpoint of the store are as they were, and the directory was only
    -- read.
    pub run-IsUntouched :
        (ephemeral : Option Bool) (es : List Event) (j : String) (w : Worker D T)
        → (launch.dry_run ≡ true)
          ⊎ ((is_ephemeral ephemeral ≡ true) × (launch.allow_memory ≡ false))
        → IsUntouched j w (run st dir config time_now launch ephemeral es w).1
    unfolding run
    run-IsUntouched ephemeral es j w safe =
        start-IsUntouched es (start_error launch ephemeral) j w (started-dry ephemeral safe)
