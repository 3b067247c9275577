-- ===== src/Worker/Counters.antt =====
-- cmd/directorysyncd/metrics.go, lines 19 to 44: the counters of the worker.
use helppi_scim_go.Prelude.{
  ℕ, ◌+◌, ◌-◌, ◌/◌, List, length, Option, none, some, ℤ, pos, negsuc, if◌then◌else◌, ◌==◌,
}
use helppi_scim_go.Exec.{Error}
use helppi_scim_go.Directory.Types.{Stats, Alert}

pub record Metrics : Type 0 where
  pub cycles : ℕ
  pub failures : ℕ
  pub created : ℕ
  pub enabled : ℕ
  pub disabled : ℕ
  pub wrote_back : ℕ
  pub conflicts : ℕ
  pub malformed : ℕ
  pub alerts : ℕ
  pub last_ms : ℤ

abbrev pub no_metrics : Metrics
no_metrics = record {
  cycles = 0;
  failures = 0;
  created = 0;
  enabled = 0;
  disabled = 0;
  wrote_back = 0;
  conflicts = 0;
  malformed = 0;
  alerts = 0;
  last_ms = pos 0;
}

-- `Duration.Milliseconds`: whole milliseconds, towards zero.
unfoldable pub milliseconds : ℤ → ℤ
milliseconds (pos n) = pos (n / 1000000)
milliseconds (negsuc n) = let k = (n + 1) / 1000000 in if k == 0 then pos 0 else negsuc (k - 1)

abbrev pub failure : Option Error → ℕ
failure none = 0
failure (some e) = 1

-- `metrics.record`
unfoldable pub record_cycle : Stats → Option Error → Metrics → Metrics
unfolding milliseconds
record_cycle s e m = record m {
  cycles = m.cycles + 1;
  failures = m.failures + failure e;
  created = m.created + s.created;
  enabled = m.enabled + s.enabled;
  disabled = m.disabled + s.disabled;
  wrote_back = m.wrote_back + s.wrote_back;
  conflicts = m.conflicts + s.conflicts;
  malformed = m.malformed + s.malformed;
  last_ms = milliseconds s.duration;
}

-- The worker's `Alert` callback, once for each alert that a cycle has raised.
abbrev pub heard : List Alert → List Alert → Metrics → Metrics
heard before after m = record m { alerts = m.alerts + (length after - length before) }
