-- ===== src/Examples/Conformance.antt =====
-- Runs of the conformance suite against a directory of one record, and against one that refuses the credential.
use helppi_scim_go.Prelude.{
  ℕ, String, ◌=ₛ◌, true, false, none, some, List, [], ◌∷◌, ◌≡◌, refl, sym, ap, ◌∙◌, length, map,
  arith, pos, if◌then◌else◌, ltb_ℤ, ◌+◌, contains,
}
use helppi_scim_go.Exec.{Result, ok, err, Error, scim, as_scim, is_not_found_status, status_code}
use helppi_scim_go.Scim.Types.{
  User, Time, Filter, everything, modified_after, ListResponse, decodes, Operation, Value, text,
  flag, schema_list, new_external_id_patch, users, users_from,
}
use helppi_scim_go.Conformance.Capabilities.{
  check_filtering, filtered_future, filtered_since_epoch, check_single_read, read_single,
  check_unknown_id, read_unknown, check_provider_config, read_config,
}
use helppi_scim_go.Conformance.Report.{Options, is_ok, counts, count_from}
use helppi_scim_go.Conformance.Runner.{Directory}
use helppi_scim_go.Conformance.Adds.{Reading, criteria}
use helppi_scim_go.Conformance.PhaseOne.{
  Texts, check_credential, credential_page, credential_users, newest_from, check_envelope,
  check_stable_ids, ids_stable, check_active_flag, all_active, check_alias, all_aliases, all_emails,
  has_suffix, suffix_of, check_meta, all_dated, check_pagination,
}
use helppi_scim_go.Conformance.PhaseTwo.{
  check, run_checks, phase_two_checks, check_write_back, write_back_target, write_value,
  check_write_back_idempotent, rewrite_target, write_twice, check_forbidden_attribute,
  forbidden_target, refused,
}
use helppi_scim_go.Conformance.Suite.Run.{suite}
use helppi_scim_go.Conformance.Suite.Cases.{check-cases}
use helppi_scim_go.Conformance.Suite.Blocked.{after_first, check-blocked}
use helppi_scim_go.Conformance.Suite.Harmless.{Rewriting, check-harmless}
use helppi_scim_go.Conformance.Command.{Launch, run, exit_code, printed, judged, with_client}
use helppi_scim_go.Conformance.Command.Exits.{Tells, exit_code-Tells}
use helppi_scim_go.Examples.Setup.{user}

abbrev texts : Texts
texts = record { to_lower = λ s. s; trim_space = λ s. s }

abbrev now : User → Time
now u = 63900000000000000000

abbrev refusal : ℕ → Error
refusal n =
    scim (record { schemas = []; status = ""; scim_type = ""; detail = ""; http_status = pos n })

abbrev listing : List User → ListResponse
listing us = record {
  schemas = schema_list ∷ [];
  total_results = pos (length us);
  start_index = pos 1;
  items_per_page = pos (length us);
  resources = map decodes us;
}

abbrev matching : Filter → User → List User
matching everything u = u ∷ []
matching (modified_after t) u = if ltb_ℤ t (pos u.last_modified) then u ∷ [] else []

-- A text is taken for the external id, and a flag is refused.
abbrev written : Value → User → Result User × User
written (text s) u = (ok (record u { external_id = s }), record u { external_id = s })
written (flag b) u = (err (refusal 403), u)

abbrev changed : List Operation → User → Result User × User
changed [] u = (ok u, u)
changed (o ∷ os) u = written o.value u

abbrev one_record : Directory User
one_record = record {
  page = λ q i n u. (ok (listing (matching q u)), u);
  get_user = λ id u. (if u.id =ₛ id then ok u else err (refusal 404), u);
  patch = λ id op u. changed op.operations u;
  service_provider_config = λ u. (
    ok (record {
      schemas = [];
      patch_supported = true;
      filter_supported = true;
      filter_max_results = pos 500;
    }),
    u,
  );
}

abbrev ana : User
ana = user "hlp_a" "helpper_1" (some true) "ana@separador.app" 63900000000000000000

abbrev probing : String → Options
probing id = record {
  alias_domain = "separador.app";
  write_id = id;
  probe_external_id = "";
  page_size = pos 0;
}

-- Nothing in the directory changes.
same_record : Reading one_record
same_record = record {
  Reads = λ u v. v ≡ u;
  Reads-refl = λ u. refl;
  Reads-trans = λ u v w p q. q ∙ p;
  page-Reads = λ q i n u. refl;
  get_user-Reads = λ id u. refl;
  config-Reads = λ u. refl;
}

found-same : (id : String) (d u : User) → (one_record.get_user id d).0 ≡ ok u → d ≡ u
found-same id d u h = ground arith

same_record-Rewriting : Rewriting same_record
unfolding same_record new_external_id_patch
same_record-Rewriting = record {
  held = λ id d d' u h a.
      ap (λ v. record d' { external_id = v.external_id }) (sym (found-same id d u h) ∙ sym a);
  held_active = λ id d d' u b h e a. refl;
}

check-cases_example :
    let (report, w) = check one_record texts now (probing "hlp_a") "" ana in
    (w.panicked ≡ false)
    × (criteria report.cases ≡ suite)
    × (let n = counts report in n.passed + n.failed + n.skipped ≡ 14)
check-cases_example = check-cases one_record texts now (probing "hlp_a") "" ana

check-harmless_example : (check one_record texts now (probing "hlp_a") "" ana).1.dir ≡ ana
unfolding same_record
check-harmless_example =
    check-harmless same_record texts now (probing "hlp_a") "" ana same_record-Rewriting refl

abbrev launched : Launch User
launched = record {
  base_url = "https://directory.example/scim/v2";
  token = "secret";
  alias_domain = "separador.app";
  write_id = "hlp_a";
  probe_value = "";
  page_size = pos 2;
  as_json = true;
  client = ok one_record;
  encode = λ r. none;
}

-- No case of the run against the one record fails.
exits_zero : exit_code (run texts now launched ana) ≡ 0
unfolding exit_code run with_client printed judged is_ok counts count_from check run_checks
    check_credential credential_page credential_users newest_from users users_from check_envelope
    check_stable_ids ids_stable contains check_active_flag all_active check_alias all_aliases
    all_emails has_suffix suffix_of check_meta all_dated check_pagination check_filtering
    filtered_future filtered_since_epoch check_single_read read_single check_unknown_id read_unknown
    is_not_found_status status_code as_scim check_provider_config read_config phase_two_checks
    check_write_back write_back_target write_value new_external_id_patch check_write_back_idempotent
    rewrite_target write_twice check_forbidden_attribute forbidden_target refused
exits_zero = refl

exit_code-Tells_example :
    Tells texts now launched ana (exit_code (run texts now launched ana)) (ok one_record)
exit_code-Tells_example = exit_code-Tells texts now launched ana

-- A directory that refuses the credential.
abbrev closed : Directory User
closed = record one_record { page = λ q i n u. (err (refusal 401), u) }

check-blocked_example :
    let (report, w) = check closed texts now (probing "hlp_a") "" ana in
    (w.dir ≡ ana) × (report.cases ≡ after_first suite)
check-blocked_example = check-blocked closed texts now (probing "hlp_a") "" ana tt
