-- ===== src/Conformance/Suite/Blocked.antt =====
-- A run against a directory whose first page cannot be used (conformance/checks.go, lines 61 to 104).
use helppi_scim_go.Prelude.{
  String, Option, none, some, Bool, true, false, List, [], ◌∷◌, ◌≡◌, refl, arith, pos,
  if◌then◌else◌, map,
}
use helppi_scim_go.Exec.{Result, ok, err, Error, is_credential}
use helppi_scim_go.Scim.Types.{Time, User, ListResponse, users, everything}
use helppi_scim_go.Conformance.Report.{Case, fail, skip, Criterion, Options}
use helppi_scim_go.Conformance.Runner.{Directory, Runner, fresh_runner, add}
use helppi_scim_go.Conformance.Criteria.{credential_accepted}
use helppi_scim_go.Conformance.PhaseOne.{
  Texts, credential_page, credential_users, check_credential, check_envelope, check_stable_ids,
  check_active_flag, check_alias, check_meta, check_pagination,
}
use helppi_scim_go.Conformance.Capabilities.{
  check_filtering, check_single_read, check_unknown_id, check_provider_config,
}
use helppi_scim_go.Conformance.PhaseTwo.{
  check, with_default, run_checks, later_checks, phase_two_checks, check_write_back,
  check_write_back_idempotent, check_forbidden_attribute,
}
use helppi_scim_go.Conformance.Suite.Run.{suite}

-- An answer that is an error, or a page with a record that cannot be decoded.
abbrev pub IsUnusable : Result ListResponse → Type 0
IsUnusable (err e) = Unit {0}
IsUnusable (ok p) = (e : Error) × users p ≡ err e

abbrev skipped : List Criterion → List Case
skipped cs = map (λ c. record { about = c; status = skip }) cs

abbrev pub after_first : List Criterion → List Case
after_first [] = []
after_first (c ∷ cs) = record { about = c; status = fail } ∷ skipped cs

module _ {D : Type 0} (dir : Directory D) (texts : Texts) (now : D → Time) (opts : Options) where
  abbrev rest : Runner D → Runner D
  rest w = phase_two_checks dir opts (later_checks dir texts now opts w)

  abbrev at_start : D → D → Option ListResponse → String → Runner D
  at_start d d' p reason = record (fresh_runner d) { dir = d'; page = p; blocked = reason }

  abbrev Stopped : D → Runner D → Type 0
  Stopped d w = (w.dir ≡ d) × (w.cases ≡ after_first suite)

  rejected-Stopped :
      (d d' : D)
      → Stopped d'
          (rest (add credential_accepted fail (at_start d d' none "the credential was rejected")))
  unfolding check_envelope check_stable_ids check_active_flag check_alias check_meta
      check_pagination check_filtering check_single_read check_unknown_id check_provider_config
      phase_two_checks check_write_back check_write_back_idempotent check_forbidden_attribute
  rejected-Stopped d d' = (refl, refl)

  unread-Stopped :
      (d d' : D)
      → Stopped d' (
          rest
            (add credential_accepted fail (at_start d d' none "the directory could not be read")))
  unfolding check_envelope check_stable_ids check_active_flag check_alias check_meta
      check_pagination check_filtering check_single_read check_unknown_id check_provider_config
      phase_two_checks check_write_back check_write_back_idempotent check_forbidden_attribute
  unread-Stopped d d' = (refl, refl)

  undecodable-Stopped :
      (d d' : D) (p : ListResponse)
      → Stopped d' (
          rest (
            add credential_accepted fail
              (at_start d d' (some p) "the directory returned records that cannot be decoded")))
  unfolding check_envelope check_stable_ids check_active_flag check_alias check_meta
      check_pagination check_filtering check_single_read check_unknown_id check_provider_config
      phase_two_checks check_write_back check_write_back_idempotent check_forbidden_attribute
  undecodable-Stopped d d' p = (refl, refl)

  page-Stopped :
      (r : Result ListResponse) (d d' : D)
      → IsUnusable r
      → Stopped d'
          (rest (credential_page dir texts now opts r (record (fresh_runner d) { dir = d' })))
  unfolding credential_page credential_users
  page-Stopped (err e) d d' _ = on_error (is_credential e)
    where
      on_error :
          (b : Bool)
          → Stopped d' (
              rest (
                if b
                then add credential_accepted fail (at_start d d' none "the credential was rejected")
                else add credential_accepted fail
                    (at_start d d' none "the directory could not be read")))
      on_error true = rejected-Stopped d d'
      on_error false = unread-Stopped d d'
  page-Stopped (ok p) d d' (e, q) = on_users (users p) q
    where
      on_users :
          (r : Result (List User))
          → r ≡ err e
          → Stopped d' (
              rest (
                credential_users dir texts now opts r
                  (record (fresh_runner d) { dir = d'; page = some p })))
      on_users (ok us) q = ground arith
      on_users (err e') q = undecodable-Stopped d d' p

module _ {D : Type 0} (dir : Directory D) (texts : Texts) (now : D → Time) (opts : Options) where
  -- When the first page cannot be read, or holds a record that cannot be decoded, the first case of the suite has
  -- failed and every other one was skipped, whatever the options, and the directory is as that one request left it:
  -- nothing was asked after it.
  pub check-blocked :
      (base_url : String) (d : D)
      → IsUnusable (dir.page everything (pos 1) (with_default opts).page_size d).0
      → let (report, w) = check dir texts now opts base_url d in
        (w.dir ≡ (dir.page everything (pos 1) (with_default opts).page_size d).1)
        × (report.cases ≡ after_first suite)
  unfolding check run_checks check_credential
  check-blocked base_url d unusable =
      let (r, d') = dir.page everything (pos 1) (with_default opts).page_size d in
      page-Stopped dir texts now (with_default opts) r d d' unusable
