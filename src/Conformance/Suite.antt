-- ===== src/Conformance/Suite.antt =====
-- The cases of phase one (conformance/checks.go, lines 47 to 403).
pub mod Probes
pub mod Run
pub mod Cases
pub mod Harmless
pub mod Blocked
pub mod Page
pub mod Records
pub mod FirstPage
pub mod Verdict
use helppi_scim_go.Prelude.{
  String, ◌=ₛ◌, Bool, true, false, not, ◌&&◌, Option, none, some, List, [], ◌∷◌, ◌++◌, ◌≡◌, refl,
  sym, ap, ◌∙◌, if◌then◌else◌, ℤ, pos, length, ◌==◌, ltb, ltb_ℤ, leb_ℤ, ◌==ℤ◌, ◌+◌,
}
use helppi_scim_go.Exec.{Exec, Result, ok, err, as_scim, is_credential}
use helppi_scim_go.Scim.Types.{User, Time, Filter, ListResponse, ProviderConfig, everything, users}
use helppi_scim_go.Directory.Walk.{is_zero}
use helppi_scim_go.Conformance.Report.{Status, pass, fail, skip, Criterion, Case, Options}
use helppi_scim_go.Conformance.Runner.{Directory, Runner, add, ask, unblocked, reading_page}
use helppi_scim_go.Conformance.Adds.{
  Reading, Adds, Adds-trans, add-Adds, ask-Adds, branch-Body, add-Body, asked_page-Body,
  asked_user-Body, asked_config-Body, Sound, Body, Ready, Adds-Ready, unblocked-Sound,
  reading_page-Body, criteria,
}
use helppi_scim_go.Conformance.Criteria.{
  credential_accepted, list_responses, stable_ids, active_flag, aliases, usable_watermark,
  honored_paging,
}
use helppi_scim_go.Conformance.PhaseOne.{
  Texts, check_credential, check_envelope, check_stable_ids, check_active_flag, check_alias,
  check_meta, check_pagination, second_page, second_users, credential_page, credential_users,
}
use helppi_scim_go.Conformance.Capabilities.{
  working_filter, single_read, typed_not_found, advertised, since_epoch, day_after, unknown_id,
  filtered_since_epoch, filtered_future, check_filtering, read_single, check_single_read,
  read_unknown, check_unknown_id, read_config, check_provider_config,
}

ruleset rules = (
  unblocked-Sound, reading_page-Body, branch-Body, add-Body, asked_page-Body, asked_user-Body,
  asked_config-Body,
)

module _ {D : Type 0} {dir : Directory D} (reading : Reading dir) (texts : Texts) (now : D → Time)
    (opts : Options) where
  pub envelope-Sound : Sound reading list_responses (check_envelope dir texts now opts)
  unfolding check_envelope
  envelope-Sound = search (rules)

  pub stable_ids-Sound : Sound reading stable_ids (check_stable_ids dir texts now opts)
  unfolding check_stable_ids
  stable_ids-Sound = search (rules)

  pub active_flag-Sound : Sound reading active_flag (check_active_flag dir texts now opts)
  unfolding check_active_flag
  active_flag-Sound = search (rules)

  pub alias-Sound : Sound reading aliases (check_alias dir texts now opts)
  unfolding check_alias
  alias-Sound = search (rules)

  pub meta-Sound : Sound reading usable_watermark (check_meta dir texts now opts)
  unfolding check_meta
  meta-Sound = search (rules)

  second_users-Body :
      (r : Result (List User)) → Body reading honored_paging (second_users dir texts now opts r)
  unfolding second_users
  second_users-Body (err e) = search rules
  second_users-Body (ok []) = search rules
  second_users-Body (ok (u ∷ us)) = search rules

  second_page-Body :
      (r : Result ListResponse) → Body reading honored_paging (second_page dir texts now opts r)
  unfolding second_page
  second_page-Body (err e) = search rules
  second_page-Body (ok p) = second_users-Body (users p)

  pub pagination-Sound : Sound reading honored_paging (check_pagination dir texts now opts)
  unfolding check_pagination
  pagination-Sound = search (
    rules,
    asked_page-Body reading honored_paging (λ w. everything) (pos 2) opts.page_size
        (second_page dir texts now opts) second_page-Body,
  )

  since_epoch-Body :
      (p : ListResponse) (r : Result ListResponse)
      → Body reading working_filter (filtered_since_epoch dir opts p r)
  unfolding filtered_since_epoch
  since_epoch-Body p (err e) = search rules
  since_epoch-Body p (ok all) = search rules

  future-Body :
      (p : ListResponse) (r : Result ListResponse)
      → Body reading working_filter (filtered_future dir opts p r)
  unfolding filtered_future
  future-Body p (err e) = search rules
  future-Body p (ok narrowed) = search (
    rules,
    asked_page-Body reading working_filter (λ w. since_epoch) (pos 1) opts.page_size
        (filtered_since_epoch dir opts p) (since_epoch-Body p),
  )

  pub filtering-Sound : Sound reading working_filter (check_filtering dir opts)
  unfolding check_filtering
  filtering-Sound = search (
    rules,
    asked_page-Body reading working_filter (λ w. day_after w.newest) (pos 1) opts.page_size
        (λ r. reading_page (λ p. filtered_future dir opts p r))
        (λ r. reading_page-Body reading working_filter _ (λ p. future-Body p r)),
  )

  single-Body : (r : Result User) → Body reading single_read (read_single dir opts r)
  unfolding read_single
  single-Body (err e) = search rules
  single-Body (ok a) = search rules

  unknown-Body : (r : Result User) → Body reading typed_not_found (read_unknown dir opts r)
  unfolding read_unknown
  unknown-Body (err e) = search rules
  unknown-Body (ok a) = search rules

  provider-Body : (r : Result ProviderConfig) → Body reading advertised (read_config dir opts r)
  unfolding read_config
  provider-Body (err e) = search rules
  provider-Body (ok a) = search rules

  pub single_read-Sound : Sound reading single_read (check_single_read dir opts)
  unfolding check_single_read
  single_read-Sound = search (
    rules,
    asked_user-Body reading single_read (λ w. w.sample.id) (read_single dir opts) single-Body,
  )

  pub unknown_id-Sound : Sound reading typed_not_found (check_unknown_id dir opts)
  unfolding check_unknown_id
  unknown_id-Sound = search (
    rules,
    asked_user-Body reading typed_not_found (λ w. unknown_id) (read_unknown dir opts) unknown-Body,
  )

  pub provider_config-Sound : Sound reading advertised (check_provider_config dir opts)
  unfolding check_provider_config
  provider_config-Sound =
      search (rules, asked_config-Body reading advertised (read_config dir opts) provider-Body)
