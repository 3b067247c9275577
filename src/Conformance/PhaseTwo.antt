-- ===== src/Conformance/PhaseTwo.antt =====
-- conformance/checks.go, lines 407 to 540, and `Check` of conformance/conformance.go: the write probes, and
-- the whole run.
use helppi_scim_go.Prelude.{
  String, ◌=ₛ◌, Bool, false, not, ◌||◌, Option, none, some, [], ◌∷◌, if◌then◌else◌, pos, leb_ℤ,
  ◌==ℤ◌,
}
use helppi_scim_go.Exec.{Result, ok, err, as_scim, status_code, ScimError}
use helppi_scim_go.Scim.Types.{User, Time, PatchOp, schema_patch_op, flag, new_external_id_patch}
use helppi_scim_go.Conformance.Report.{pass, fail, skip, Criterion, Options, Report}
use helppi_scim_go.Conformance.Runner.{Directory, Runner, fresh_runner, add, ask}
use helppi_scim_go.Conformance.PhaseOne.{
  Texts, check_credential, check_envelope, check_stable_ids, check_active_flag, check_alias,
  check_meta, check_pagination,
}
use helppi_scim_go.Conformance.Capabilities.{
  check_filtering, check_single_read, check_unknown_id, check_provider_config,
}

abbrev pub accepted_write : Criterion
accepted_write = record {
  id = "P2.01";
  phase = "2";
  title = "externalId accepts our identifier";
  criterion = "§07 write-back";
}

abbrev pub idempotent_write : Criterion
idempotent_write = record {
  id = "P2.02";
  phase = "2";
  title = "Writing the same value twice changes nothing";
  criterion = "§08 idempotency";
}

abbrev pub read_only_attributes : Criterion
read_only_attributes = record {
  id = "P2.03";
  phase = "2";
  title = "Authoritative attributes are read-only";
  criterion = "§12 responsibilities";
}

-- The write that probes a read-only attribute: `active`, to a value.
abbrev pub active_patch : Bool → PatchOp
active_patch b = record {
  schemas = schema_patch_op ∷ [];
  operations = record { op = "replace"; path = "active"; value = flag b } ∷ [];
}

module _ {D : Type 0} (dir : Directory D) (opts : Options) where
  abbrev Check : Type 0
  Check = Runner D → Runner D

  -- A check of phase two up to its target: skipped where the run is blocked or names no record.
  abbrev pub probing : Criterion → Check → Check
  probing c f w =
      if not (w.blocked =ₛ "")
      then add c skip w
      else if opts.write_id =ₛ ""
      then add c skip w
      else f w

  abbrev pub found : Result User → Option User
  found (ok u) = some u
  found (err e) = none

  -- `writeTarget`
  abbrev pub write_target : Runner D → Option User × Runner D
  write_target w =
      if not (w.blocked =ₛ "") || opts.write_id =ₛ ""
      then (none, w)
      else let (r, w') = ask (dir.get_user opts.write_id) w in (found r, w')

  -- Whether a write answered with a record that carries the value.
  abbrev pub reflects : String → Result User → Bool
  reflects value (err e) = false
  reflects value (ok got) = got.external_id =ₛ value

  unfoldable pub write_value : User → String → Check
  unfolding new_external_id_patch
  write_value u value w =
      let (r, w') = ask (dir.patch u.id (new_external_id_patch value)) w in
      if reflects value r then add accepted_write pass w' else add accepted_write fail w'

  unfoldable pub write_back_target : Option User → Check
  unfolding write_value
  write_back_target none w = add accepted_write fail w
  write_back_target (some u) w =
      if not (u.external_id =ₛ "")
      then write_value u u.external_id w
      else if opts.probe_external_id =ₛ ""
      then add accepted_write skip w
      else write_value u opts.probe_external_id w

  unfoldable pub check_write_back : Check
  unfolding write_back_target
  check_write_back =
      probing accepted_write (λ w. let (target, w') = write_target w in write_back_target target w')

  -- The two writes of the value that the record has, the second only if the first one reflects it.
  unfoldable pub write_twice : User → Check
  unfolding new_external_id_patch
  write_twice u w =
      let (r, w₁) = ask (dir.patch u.id (new_external_id_patch u.external_id)) w in
      if not (reflects u.external_id r)
      then add idempotent_write fail w₁
      else let (r', w₂) = ask (dir.patch u.id (new_external_id_patch u.external_id)) w₁ in
        if reflects u.external_id r'
        then add idempotent_write pass w₂
        else add idempotent_write fail w₂

  unfoldable pub rewrite_target : Option User → Check
  unfolding write_twice
  rewrite_target none w = add idempotent_write skip w
  rewrite_target (some u) w =
      if u.external_id =ₛ "" then add idempotent_write skip w else write_twice u w

  unfoldable pub check_write_back_idempotent : Check
  unfolding rewrite_target
  check_write_back_idempotent =
      probing idempotent_write (λ w. let (target, w') = write_target w in rewrite_target target w')

  abbrev is_refusal : Option ScimError → Bool
  is_refusal none = false
  is_refusal (some e) = status_code e ==ℤ pos 403 || status_code e ==ℤ pos 400

  unfoldable pub refused : Result User → Check
  refused (ok u) w = add read_only_attributes fail w
  refused (err e) w =
      if is_refusal (as_scim e)
      then add read_only_attributes pass w
      else add read_only_attributes fail w

  abbrev pub write_active : User → Option Bool → Check
  write_active u none w = add read_only_attributes skip w
  write_active u (some b) w = let (r, w') = ask (dir.patch u.id (active_patch b)) w in refused r w'

  unfoldable pub forbidden_target : Option User → Check
  unfolding refused
  forbidden_target none w = add read_only_attributes skip w
  forbidden_target (some u) w = write_active u u.active w

  unfoldable pub check_forbidden_attribute : Check
  unfolding forbidden_target
  check_forbidden_attribute =
      probing read_only_attributes
        (λ w. let (target, w') = write_target w in forbidden_target target w')

  unfoldable pub phase_two_checks : Check
  phase_two_checks w = check_forbidden_attribute (check_write_back_idempotent (check_write_back w))

-- The options with the default of the page size.
abbrev pub with_default : Options → Options
with_default opts = if leb_ℤ opts.page_size (pos 0) then record opts { page_size = pos 2 } else opts

module _ {D : Type 0} (dir : Directory D) (texts : Texts) (now : D → Time) where
  -- The checks of `phaseOne` after the credential.
  abbrev pub later_checks : Options → Runner D → Runner D
  later_checks opts w = check_provider_config dir opts (
      check_unknown_id dir opts (
        check_single_read dir opts (
          check_filtering dir opts (
            check_pagination dir texts now opts (
              check_meta dir texts now opts (
                check_alias dir texts now opts (
                  check_active_flag dir texts now opts (
                    check_stable_ids dir texts now opts
                      (check_envelope dir texts now opts w)))))))))

  unfoldable pub run_checks : Options → Runner D → Runner D
  run_checks opts w =
      phase_two_checks dir opts (later_checks opts (check_credential dir texts now opts w))

  -- `Check`: the report, and the runner at the end.
  unfoldable pub check : Options → String → D → Report × Runner D
  unfolding run_checks
  check opts base_url d =
      let w = run_checks (with_default opts) (fresh_runner d) in
      (
        record {
          base_url = base_url;
          started_at = now d;
          finished_at = now w.dir;
          cases = w.cases;
        },
        w,
      )
