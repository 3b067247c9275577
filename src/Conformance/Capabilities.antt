-- ===== src/Conformance/Capabilities.antt =====
-- conformance/checks.go, lines 295 to 403: filtering, single records, unknown ids, and the capabilities.
use helppi_scim_go.Prelude.{
  ℕ, ◌+◌, ◌*◌, String, ◌=ₛ◌, Bool, true, false, not, ◌&&◌, Option, none, some, if◌then◌else◌, pos,
  ltb_ℤ, leb_ℤ,
}
use helppi_scim_go.Exec.{Result, ok, err, as_scim, is_not_found_status, ScimError}
use helppi_scim_go.Scim.Types.{User, Time, Filter, ListResponse, ProviderConfig, modified_after}
use helppi_scim_go.Directory.Walk.{is_zero}
use helppi_scim_go.Directory.Cycle.{whole_seconds}
use helppi_scim_go.Conformance.Report.{pass, fail, skip, Criterion, Options}
use helppi_scim_go.Conformance.Runner.{Directory, Runner, add, ask, unblocked, reading_page}

abbrev pub working_filter : Criterion
working_filter = record {
  id = "P1.08";
  phase = "1";
  title = "Filtering by meta.lastModified works";
  criterion = "§08 incremental sync";
}

abbrev pub single_read : Criterion
single_read = record {
  id = "P1.09";
  phase = "1";
  title = "A record can be read by id";
  criterion = "Appendix A — endpoints";
}

abbrev pub typed_not_found : Criterion
typed_not_found = record {
  id = "P1.10";
  phase = "1";
  title = "An unknown id is a typed 404";
  criterion = "Appendix A — error matrix";
}

abbrev pub advertised : Criterion
advertised = record {
  id = "P1.11";
  phase = "1";
  title = "Capabilities are advertised";
  criterion = "§13 configuration";
}

abbrev second : ℕ
second = 1000000000

-- A day after an instant, as the filter's text has it.
abbrev pub day_after : Time → Filter
day_after t = modified_after (whole_seconds (pos (t + 24 * 3600 * second)))

-- The filter from 1970-01-01T00:00:00Z on, which lies 62135596800 seconds after Go's zero time.
abbrev pub since_epoch : Filter
since_epoch = modified_after (pos (62135596800 * second))

abbrev pub unknown_id : String
unknown_id = "hlp_conformance_probe_does_not_exist"

module _ {D : Type 0} (dir : Directory D) (opts : Options) where
  abbrev Check : Type 0
  Check = Runner D → Runner D

  -- `checkFiltering`, on the answer since the epoch.
  unfoldable pub filtered_since_epoch : ListResponse → Result ListResponse → Check
  filtered_since_epoch p (err e) w = add working_filter fail w
  filtered_since_epoch p (ok all) w =
      if ltb_ℤ all.total_results p.total_results
      then add working_filter fail w
      else add working_filter pass w

  -- The same, on the answer for the future.
  unfoldable pub filtered_future : ListResponse → Result ListResponse → Check
  unfolding filtered_since_epoch
  filtered_future p (err e) w = add working_filter fail w
  filtered_future p (ok narrowed) w =
      if leb_ℤ p.total_results narrowed.total_results && ltb_ℤ (pos 0) p.total_results
      then add working_filter fail w
      else let (r, w') = ask (dir.page since_epoch (pos 1) opts.page_size) w in
        filtered_since_epoch p r w'

  unfoldable pub check_filtering : Check
  unfolding filtered_future
  check_filtering = unblocked working_filter (λ w.
      if is_zero w.newest
      then add working_filter skip w
      else let (r, w') = ask (dir.page (day_after w.newest) (pos 1) opts.page_size) w in
        reading_page (λ p. filtered_future p r) w')

  abbrev omits_active : Option Bool → Bool
  omits_active none = true
  omits_active (some _) = false

  unfoldable pub read_single : Result User → Check
  read_single (err e) w = add single_read fail w
  read_single (ok got) w =
      if not (got.id =ₛ w.sample.id)
      then add single_read fail w
      else if omits_active got.active
      then add single_read fail w
      else add single_read pass w

  unfoldable pub check_single_read : Check
  unfolding read_single
  check_single_read = unblocked single_read (λ w.
      if w.sample.id =ₛ ""
      then add single_read skip w
      else let (r, w') = ask (dir.get_user w.sample.id) w in read_single r w')

  -- `errors.As(err, &se)`, then `se.NotFound()`.
  abbrev is_typed_not_found : Option ScimError → Bool
  is_typed_not_found none = false
  is_typed_not_found (some e) = is_not_found_status e

  unfoldable pub read_unknown : Result User → Check
  read_unknown (ok u) w = add typed_not_found fail w
  read_unknown (err e) w =
      if is_typed_not_found (as_scim e)
      then add typed_not_found pass w
      else add typed_not_found fail w

  unfoldable pub check_unknown_id : Check
  unfolding read_unknown
  check_unknown_id =
      unblocked typed_not_found
        (λ w. let (r, w') = ask (dir.get_user unknown_id) w in read_unknown r w')

  unfoldable pub read_config : Result ProviderConfig → Check
  read_config (err e) w = add advertised skip w
  read_config (ok cfg) w =
      if cfg.filter_supported && cfg.patch_supported
      then add advertised pass w
      else add advertised fail w

  unfoldable pub check_provider_config : Check
  unfolding read_config
  check_provider_config =
      unblocked advertised
        (λ w. let (r, w') = ask dir.service_provider_config w in read_config r w')
