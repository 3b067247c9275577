-- ===== src/Worker/Endpoints.antt =====
-- cmd/directorysyncd/metrics.go, lines 46 to 76, and main.go, lines 217 to 262: what the worker exposes over HTTP, and
-- the intervals that it takes from the environment. A sample is its name, its kind and its value, without its help text.
use helppi_scim_go.Prelude.{
  ℕ, String, ◌=ₛ◌, ◌==◌, Option, none, some, List, [], ◌∷◌, ℤ, pos, ◌-ℤ◌, if◌then◌else◌,
}
use helppi_scim_go.Exec.{Result, ok, err}
use helppi_scim_go.Scim.Types.{Time}
use helppi_scim_go.Worker.Counters.{Metrics}

pub data Value : Type 0 where
  -- a duration in nanoseconds, printed in whole seconds
  seconds : ℤ → Value
  whole : ℤ → Value

pub data Sample : Type 0 where
  gauge : String → Value → Sample
  counter : String → ℕ → Sample

-- The age of the checkpoint, 0 while there is none.
abbrev pub lag : Time → Time → ℤ
lag now checkpoint = if checkpoint == 0 then pos 0 else pos now -ℤ pos checkpoint

-- `metrics.write`
unfoldable pub exposition : Metrics → Time → Time → List Sample
unfolding ◌-ℤ◌
exposition m now checkpoint =
    gauge "directory_sync_lag_seconds" (seconds (lag now checkpoint))
    ∷ gauge "directory_last_cycle_duration_ms" (whole m.last_ms)
    ∷ counter "directory_sync_cycles_total" m.cycles
    ∷ counter "directory_sync_failures_total" m.failures
    ∷ counter "directory_helppers_created_total" m.created
    ∷ counter "directory_helppers_enabled_total" m.enabled
    ∷ counter "directory_helppers_disabled_total" m.disabled
    ∷ counter "directory_write_backs_total" m.wrote_back
    ∷ counter "directory_write_back_conflicts_total" m.conflicts
    ∷ counter "directory_malformed_records_total" m.malformed
    ∷ counter "directory_alerts_total" m.alerts
    ∷ []

pub data Page : Type 0 where
  plain : ℕ → String → Page
  samples : List Sample → Page
  missing : Page

-- The checkpoint of the page, where an error leaves the zero time.
abbrev pub checkpoint_or_zero : Result Time → Time
checkpoint_or_zero (ok at) = at
checkpoint_or_zero (err e) = 0

-- The handlers of `serveMetrics`, on the answer of the store's `Checkpoint`.
unfoldable pub served : Metrics → Time → Result Time → String → Page
unfolding exposition
served m now checkpoint path =
    if path =ₛ "/healthz"
    then plain 200 "ok\n"
    else if path =ₛ "/readyz"
    then (if m.cycles == 0 then plain 503 "no cycle completed yet\n" else plain 200 "ready\n")
    else if path =ₛ "/metrics"
    then samples (exposition m now (checkpoint_or_zero checkpoint))
    else missing

-- `envDuration`, with `time.ParseDuration` as a parameter; the value of a variable that is not set is "".
unfoldable pub env_duration : (String → Option ℤ) → String → ℤ → ℤ
env_duration parse_duration value default =
    if value =ₛ "" then default else elim (parse_duration value) [ some d ↦ d | none ↦ default ]
