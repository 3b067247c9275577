-- ===== src/Directory/Cycle.antt =====
-- directory/directory.go, lines 160 to 246 and 299 to 323: the incremental cycle, the full cycle, and
-- the advance of the checkpoint.
pub mod Checkpoint
pub mod Inversion
pub mod Incremental
pub mod DryRun
pub mod FullCheckpoint
pub mod FullSteps
pub mod Absent
pub mod Recovery
pub mod Progress
use helppi_scim_go.Prelude.{
  ℕ, ◌+◌, String, not, ◌||◌, Option, none, some, List, [], ◌∷◌, ◌++◌, length, contains, ltb,
  if◌then◌else◌, ℤ, pos, ltb_ℤ, ◌+ℤ◌, ◌-ℤ◌, ◌=ₛ◌, ◌&&◌, ◌/◌, ◌*◌, ◌-◌, negsuc,
}
use helppi_scim_go.Exec.{Result, ok, err, Error, wrap}
use helppi_scim_go.Scim.Types.{User, Time, Filter, everything, modified_after}
use helppi_scim_go.Store.Types.{Store, Helpper}
use helppi_scim_go.Directory.Types.{
  Syncer, Session, Stats, Drift, Before, no_stats, no_drift, is_empty, drift_detected,
}
use helppi_scim_go.Directory.Interface.{Directory, State}
use helppi_scim_go.Directory.Apply.{alert_once, on_store, tally}
use helppi_scim_go.Directory.Walk.{is_zero, walk_with}

-- The list part of a full walk's `drift`, and its `seen` set.
pub record Seen : Type 0 where
  pub drift : Drift
  pub seen : List String

abbrev pub nothing_seen : Seen
nothing_seen = record { drift = no_drift; seen = [] }

-- The observer of the full walk, on a record of a helpper that existed before.
abbrev note_drift : User → Before → Drift → Drift
note_drift u r d =
    let d₁ =
      (if r.enabled_before && not r.active_now
        then record d { should_be_disabled = d.should_be_disabled ++ u.id ∷ [] }
        else d) in
    if r.external_id_before =ₛ ""
    then record d₁ { missing_external_id = d₁.missing_external_id ++ u.id ∷ [] }
    else d₁

unfoldable pub see : User → Before → Seen → Seen
see u r o = record {
  seen = u.id ∷ o.seen;
  drift = if not r.existed then o.drift else note_drift u r o.drift;
}

-- The helppers that the full walk did not return, in the order of the store's list.
unfoldable pub absent : List String → List Helpper → List String
absent seen [] = []
absent seen (p ∷ ps) =
    if contains p.directory_id seen then absent seen ps else p.directory_id ∷ absent seen ps

abbrev second : ℕ
second = 1000000000

-- `Format(time.RFC3339)` writes whole seconds: the instant is rounded down.
abbrev pub whole_seconds : ℤ → ℤ
whole_seconds (pos n) = pos (n / second * second)
whole_seconds (negsuc n) = negsuc ((n / second + 1) * second - 1)

-- The filter of an incremental cycle from a checkpoint.
unfoldable pub filter_since : ℤ → Time → Filter
unfolding ◌-ℤ◌
filter_since overlap cp =
    if is_zero cp then everything else modified_after (whole_seconds (pos cp -ℤ overlap))

module _ {D T : Type 0} (syncer : Syncer) (st : Store T) (dir : Directory D) where
  abbrev pub Cycling : Type 0
  Cycling = State D (Session T)

  abbrev pub read_clock : Cycling → Time × Cycling
  read_clock w = (
    syncer.clock w.rest.readings,
    record w { rest = record w.rest { readings = w.rest.readings + 1 } },
  )

  -- `advance`, once the clock was read: `limit` is `s.now().Add(s.futureSkew)`.
  unfoldable pub advance_within : ℤ → Time → Time → Cycling → Time × Option Error × Cycling
  unfolding alert_once
  advance_within limit current watermark w =
      if ltb_ℤ limit (pos watermark)
      then (current, none, record w { rest = alert_once "future-watermark" w.rest })
      else if syncer.dry_run
      then (current, none, w)
      else (let (r, w') = on_store (st.set_checkpoint watermark) w in
          elim r [
            | ok _ ↦ (watermark, none, w')
            | err e ↦ (current, some (wrap "advance checkpoint" e), w')
          ])

  unfoldable pub advance : Time → Time → Cycling → Time × Option Error × Cycling
  unfolding advance_within
  advance current watermark w =
      if is_zero watermark || not (ltb current watermark)
      then (current, none, w)
      else (let (now, w') = read_clock w in
          advance_within (pos now +ℤ syncer.future_skew) current watermark w')

  -- `stats.Duration = s.now().Sub(started)`.
  unfoldable pub timed : Time → Cycling → Cycling
  unfolding ◌-ℤ◌
  timed started w =
      let (now, w') = read_clock w in
      record w' { rest = tally (λ n. record n { duration = pos now -ℤ pos started }) w'.rest }

  -- The end of both cycles: the stats with the checkpoint that `advance` returns.
  unfoldable pub settle : Time → Time → Cycling → Stats × Option Error × Cycling
  settle cp watermark w =
      let (at, e, w') = advance cp watermark w in (record w.rest.stats { checkpoint = at }, e, w')

  -- The state of a cycle when its walk starts, beside the checkpoint that it read.
  abbrev pub begun : Cycling → Result Time × Cycling
  begun w = on_store st.checkpoint (read_clock w).1

  -- The walk of an incremental cycle from a checkpoint.
  abbrev pub incremental_walk : Time → Cycling → Result Time × Unit {0} × Cycling
  incremental_walk cp w =
      walk_with {O = Unit {0}} syncer st dir none (filter_since syncer.overlap cp) tt w

  -- The walk of a full cycle.
  abbrev pub full_walk : Cycling → Result Time × Seen × Cycling
  full_walk w = walk_with syncer st dir (some see) everything nothing_seen w

  -- What `Incremental` does with the outcome of its walk.
  unfoldable pub incremental_walked :
      Time → Time → Result Time → Cycling → Stats × Option Error × Cycling
  unfolding timed settle
  incremental_walked started cp (err e) w = let w' = timed started w in (w'.rest.stats, some e, w')
  incremental_walked started cp (ok watermark) w = settle cp watermark (timed started w)

  -- What `Incremental` does with the checkpoint that it read.
  unfoldable pub incremental_from : Time → Result Time → Cycling → Stats × Option Error × Cycling
  incremental_from started (err e) w = (no_stats, some (wrap "read checkpoint" e), w)
  incremental_from started (ok cp) w =
      let (r, _, w') = incremental_walk cp w in incremental_walked started cp r w'

  unfoldable pub incremental : Cycling → Stats × Option Error × Cycling
  incremental w = let (r, w') = begun w in incremental_from (syncer.clock w.rest.readings) r w'

  unfoldable pub with_drift :
      Drift → Stats × Option Error × Cycling → Stats × Drift × Option Error × Cycling
  with_drift d (stats, e, w) = (stats, d, e, w)

  -- `if !drift.Empty() { s.alert(...) }`
  unfoldable pub report_drift : Drift → Session T → Session T
  unfolding is_empty
  report_drift d x = if is_empty d then x else record x {
    alerts =
        drift_detected (length d.absent_from_directory) (length d.should_be_disabled)
          (length d.missing_external_id)
        ∷ x.alerts;
  }

  -- The full cycle from the store's list of enabled helppers on.
  unfoldable pub compare_local :
      Time → Time → Seen → Result (List Helpper) → Cycling → Stats × Drift × Option Error × Cycling
  unfolding report_drift settle with_drift
  compare_local cp watermark o (err e) w =
      (w.rest.stats, o.drift, some (wrap "list enabled helppers" e), w)
  compare_local cp watermark o (ok ps) w =
      let d = record o.drift { absent_from_directory = absent o.seen ps } in
      with_drift d (settle cp watermark (record w { rest = report_drift d w.rest }))

  -- What `Full` does with the outcome of its walk.
  unfoldable pub full_walked :
      Time → Time → Result Time → Seen → Cycling → Stats × Drift × Option Error × Cycling
  unfolding timed
  full_walked started cp (err e) o w =
      let w' = timed started w in (w'.rest.stats, o.drift, some e, w')
  full_walked started cp (ok watermark) o w =
      let (ps, w') = on_store st.enabled_helppers (timed started w) in
      compare_local cp watermark o ps w'

  unfoldable pub full_from : Time → Result Time → Cycling → Stats × Drift × Option Error × Cycling
  full_from started (err e) w = (no_stats, no_drift, some (wrap "read checkpoint" e), w)
  full_from started (ok cp) w = let (r, o, w') = full_walk w in full_walked started cp r o w'

  unfoldable pub full : Cycling → Stats × Drift × Option Error × Cycling
  full w = let (r, w') = begun w in full_from (syncer.clock w.rest.readings) r w'
