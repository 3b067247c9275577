-- ===== src/Directory/Types.antt =====
-- directory/directory.go, lines 23 to 156: options, defaults, results, and the syncer's own state.
use helppi_scim_go.Prelude.{
  ℕ, ◌*◌, String, Bool, true, false, List, [], ◌&&◌, ℤ, pos, leb_ℤ, ◌==ℤ◌, length, ◌==◌,
  if◌then◌else◌, Option, none, some,
}
use helppi_scim_go.Scim.Types.{Time}

-- `time.Minute`, in nanoseconds.
abbrev minute : ℕ
minute = 60000000000

abbrev pub default_page_size : ℤ
default_page_size = pos 200

abbrev pub default_overlap : ℤ
default_overlap = pos (2 * minute)

abbrev pub default_max_malformed : ℤ
default_max_malformed = pos 25

abbrev pub default_future_skew : ℤ
default_future_skew = pos (5 * minute)

pub record Stats : Type 0 where
  pub scanned : ℕ
  pub created : ℕ
  pub enabled : ℕ
  pub disabled : ℕ
  pub updated : ℕ
  pub unchanged : ℕ
  pub skipped : ℕ
  pub malformed : ℕ
  pub wrote_back : ℕ
  pub conflicts : ℕ
  pub duration : ℤ
  pub checkpoint : Time

abbrev pub no_stats : Stats
no_stats = record {
  scanned = 0;
  created = 0;
  enabled = 0;
  disabled = 0;
  updated = 0;
  unchanged = 0;
  skipped = 0;
  malformed = 0;
  wrote_back = 0;
  conflicts = 0;
  duration = pos 0;
  checkpoint = 0;
}

pub record Drift : Type 0 where
  pub absent_from_directory : List String
  pub should_be_disabled : List String
  pub missing_external_id : List String

abbrev pub no_drift : Drift
no_drift = record { absent_from_directory = []; should_be_disabled = []; missing_external_id = [] }

unfoldable pub is_empty : Drift → Bool
is_empty d =
    length d.absent_from_directory == 0
    && length d.should_be_disabled == 0
    && length d.missing_external_id == 0

-- The clock answers its k-th reading, counted from 0; `none` stands for a nil `Now`.
pub record Options : Type 0 where
  pub page_size : ℤ
  pub overlap : ℤ
  pub max_malformed : ℤ
  pub future_skew : ℤ
  pub dry_run : Bool
  pub now : Option (ℕ → Time)

pub record Syncer : Type 0 where
  pub page_size : ℤ
  pub overlap : ℤ
  pub max_malformed : ℤ
  pub future_skew : ℤ
  pub dry_run : Bool
  pub clock : ℕ → Time

abbrev clock_or {ℓ} : {A : Type ℓ} → Option A → A → A
clock_or none d = d
clock_or (some c) d = c

-- `New`; the first argument is `time.Now`.
unfoldable pub new : (ℕ → Time) → Options → Syncer
new time_now opts = record {
  page_size = if leb_ℤ opts.page_size (pos 0) then default_page_size else opts.page_size;
  overlap = if opts.overlap ==ℤ pos 0 then default_overlap else opts.overlap;
  max_malformed =
      if opts.max_malformed ==ℤ pos 0 then default_max_malformed else opts.max_malformed;
  future_skew = if opts.future_skew ==ℤ pos 0 then default_future_skew else opts.future_skew;
  dry_run = opts.dry_run;
  clock = clock_or opts.now time_now;
}

-- A call of `alert`: one that `alertOnce` let through, by its key, or the drift report's counts.
pub data Alert : Type 0 where
  once : String → Alert
  drift_detected : ℕ → ℕ → ℕ → Alert

-- The state of a cycle outside the directory: the store, the clock readings taken, the syncer's
-- `alerted` set, the alerts raised so far (newest first), and the cycle's `stats`.
pub record Session (T : Type 0) : Type 0 where
  pub store : T
  pub readings : ℕ
  pub alerted : List String
  pub alerts : List Alert
  pub stats : Stats

-- The state of one identity as it was before this cycle touched it (`record` in the source).
pub record Before : Type 0 where
  pub existed : Bool
  pub enabled_before : Bool
  pub active_now : Bool
  pub external_id_before : String
  pub malformed : Bool

abbrev pub unusable : Before
unusable = record {
  existed = false;
  enabled_before = false;
  active_now = false;
  external_id_before = "";
  malformed = true;
}

abbrev pub unseen : Bool → Before
unseen active = record {
  existed = false;
  enabled_before = false;
  active_now = active;
  external_id_before = "";
  malformed = false;
}
