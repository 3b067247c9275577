-- ===== src/Conformance/Suite/Verdict.antt =====
-- What a report without a failed case tells of the directory's first page (conformance/conformance.go, lines 87 to 138,
-- and conformance/checks.go, lines 61 to 237).
use helppi_scim_go.Prelude.{
  ◌+◌, ◌<◌, String, ◌=ₛ◌, Bool, true, false, some, List, [], ◌∷◌, ◌≡◌, sym, ap, ◌∙◌, arith, pos,
  ◌≤ℤ◌, length, All,
}
use helppi_scim_go.Exec.{ok}
use helppi_scim_go.Scim.Types.{Time, User, ListResponse, users, everything}
use helppi_scim_go.Conformance.Report.{
  Status, pass, fail, skip, Case, Counts, Options, count_from, count_one, counts, is_ok,
}
use helppi_scim_go.Conformance.Runner.{Directory, Runner, fresh_runner}
use helppi_scim_go.Conformance.Adds.{fails, fail_one, Ready, Sound-step}
use helppi_scim_go.Conformance.PhaseOne.{
  Texts, ids_stable, all_active, all_dated, check_credential, check_envelope, check_stable_ids,
  check_active_flag, check_alias, check_meta, check_pagination,
}
use helppi_scim_go.Conformance.Capabilities.{
  check_filtering, check_single_read, check_unknown_id, check_provider_config,
}
use helppi_scim_go.Conformance.PhaseTwo.{
  check, with_default, run_checks, later_checks, phase_two_checks,
}
use helppi_scim_go.Conformance.Suite.{
  envelope-Sound, stable_ids-Sound, active_flag-Sound, alias-Sound, meta-Sound, pagination-Sound,
  filtering-Sound, single_read-Sound, unknown_id-Sound, provider_config-Sound,
}
use helppi_scim_go.Conformance.Suite.Records.{
  HaveDistinctIds, stable-HaveDistinctIds, active-All, dated-All,
}
use helppi_scim_go.Conformance.Suite.Cases.{anything, anything-Writing}
use helppi_scim_go.Conformance.Suite.Run.{credential-Ready}
use helppi_scim_go.Conformance.Suite.Probes.{phase_two-Adds}
use helppi_scim_go.Conformance.Suite.Page.{
  stable_ids-passes, active_flag-passes, meta-passes, envelope-passes,
}
use helppi_scim_go.Conformance.Suite.FirstPage.{HasRead, credential-HasRead}

failed-fails : (cs : List Case) (n : Counts) → (count_from cs n).failed ≡ fails cs + n.failed
unfolding count_from fails
failed-fails [] n = omega arith
failed-fails (c ∷ cs) n =
    omega (arith, failed-fails cs (count_one c.status n), one-fails c.status n)
  where
    one-fails : (s : Status) (n : Counts) → (count_one s n).failed ≡ fail_one s + n.failed
    one-fails pass n = omega arith
    one-fails fail n = omega arith
    one-fails skip n = omega arith

module _ {D : Type 0} (dir : Directory D) (texts : Texts) (now : D → Time) (opts : Options) where
  -- The runner before each of the checks on the first page, and how many cases have failed by then.
  record Course (w : Runner D) : Type 0 where
    pub start : fails w.cases ≡ 0
    pub envelope : fails (check_envelope dir texts now opts w).cases ≡ 0
    pub w₁ : Runner D
    pub stable : fails (check_stable_ids dir texts now opts w₁).cases ≡ 0
    pub w₂ : Runner D
    pub active : fails (check_active_flag dir texts now opts w₂).cases ≡ 0
    pub w₃ : Runner D
    pub dated : fails (check_meta dir texts now opts w₃).cases ≡ 0
    pub blocked : (w₁.blocked ≡ w.blocked) × (w₂.blocked ≡ w.blocked) × (w₃.blocked ≡ w.blocked)
    pub users : (w₁.users ≡ w.users) × (w₂.users ≡ w.users) × (w₃.users ≡ w.users)

  later-Course :
      (w : Runner D)
      → Ready (anything dir) w
      → fails (phase_two_checks dir opts (later_checks dir texts now opts w)).cases ≡ 0
      → Course w
  later-Course w r h =
      let k = anything dir in
      let (a₁, r₁) = Sound-step k (envelope-Sound k texts now opts) w r in
      let w₁ = check_envelope dir texts now opts w in
      let (a₂, r₂) = Sound-step k (stable_ids-Sound k texts now opts) w₁ r₁ in
      let w₂ = check_stable_ids dir texts now opts w₁ in
      let (a₃, r₃) = Sound-step k (active_flag-Sound k texts now opts) w₂ r₂ in
      let w₃ = check_active_flag dir texts now opts w₂ in
      let (a₄, r₄) = Sound-step k (alias-Sound k texts now opts) w₃ r₃ in
      let w₄ = check_alias dir texts now opts w₃ in
      let (a₅, r₅) = Sound-step k (meta-Sound k texts now opts) w₄ r₄ in
      let w₅ = check_meta dir texts now opts w₄ in
      let (a₆, r₆) = Sound-step k (pagination-Sound k texts now opts) w₅ r₅ in
      let w₆ = check_pagination dir texts now opts w₅ in
      let (a₇, r₇) = Sound-step k (filtering-Sound k texts now opts) w₆ r₆ in
      let w₇ = check_filtering dir opts w₆ in
      let (a₈, r₈) = Sound-step k (single_read-Sound k texts now opts) w₇ r₇ in
      let w₈ = check_single_read dir opts w₇ in
      let (a₉, r₉) = Sound-step k (unknown_id-Sound k texts now opts) w₈ r₈ in
      let w₉ = check_unknown_id dir opts w₈ in
      let (b, _) = Sound-step k (provider_config-Sound k texts now opts) w₉ r₉ in
      let last =
        phase_two-Adds opts (anything-Writing dir opts) (check_provider_config dir opts w₉) in
      let m₅ : fails w₅.cases ≡ 0 = omega (
        arith, h, last.more_fails, b.more_fails, a₉.more_fails, a₈.more_fails, a₇.more_fails,
        a₆.more_fails,
      ) in
      let m₃ : fails w₃.cases ≡ 0 = omega (arith, m₅, a₅.more_fails, a₄.more_fails) in
      let m₂ : fails w₂.cases ≡ 0 = omega (arith, m₃, a₃.more_fails) in
      record {
        start = omega (arith, m₂, a₂.more_fails, a₁.more_fails);
        envelope = omega (arith, m₂, a₂.more_fails);
        w₁ = w₁;
        stable = m₂;
        w₂ = w₂;
        active = m₃;
        w₃ = w₄;
        dated = m₅;
        blocked = (
          a₁.blocked_kept,
          a₂.blocked_kept ∙ a₁.blocked_kept,
          a₄.blocked_kept ∙ a₃.blocked_kept ∙ a₂.blocked_kept ∙ a₁.blocked_kept,
        );
        users = (
          a₁.users_kept,
          a₂.users_kept ∙ a₁.users_kept,
          a₄.users_kept ∙ a₃.users_kept ∙ a₂.users_kept ∙ a₁.users_kept,
        );
      }

  -- What the first page has to be for the checks on it to pass.
  pub record IsUsable (p : ListResponse) (us : List User) : Type 0 where
    pub decoded : users p ≡ ok us
    pub total : pos (length p.resources) ≤ℤ p.total_results
    pub named : All (λ u. (texts.trim_space u.id =ₛ "") ≡ false) us
    pub distinct : HaveDistinctIds us
    pub active : All (λ u. (b : Bool) × u.active ≡ some b) us
    pub dated : All (λ u. 0 < u.last_modified) us

  usable :
      (d : D) (w : Runner D) (p : ListResponse) (us : List User)
      → HasRead dir texts now opts d w p us
      → Course w
      → IsUsable p us
  usable d w p us (a, q, page, read, open_run) course =
      let stable =
        stable_ids-passes dir texts now opts course.w₁ (course.blocked.0 ∙ open_run)
          course.stable in
      let ids =
        stable-HaveDistinctIds texts [] us
          (sym (ap (ids_stable texts []) (course.users.0 ∙ read)) ∙ stable) in
      record {
        decoded = q;
        total =
            ground
              (arith, (envelope-passes dir texts now opts w p open_run page course.envelope).0);
        named = ids.0;
        distinct = ids.1;
        active = active-All us (
            sym (ap all_active (course.users.1 ∙ read))
            ∙ active_flag-passes dir texts now opts course.w₂ (course.blocked.1 ∙ open_run)
                course.active);
        dated = dated-All us (
            sym (ap all_dated (course.users.2 ∙ read))
            ∙ meta-passes dir texts now opts course.w₃ (course.blocked.2 ∙ open_run) course.dated);
      }

  run_checks-usable :
      (d : D)
      → fails (run_checks dir texts now opts (fresh_runner d)).cases ≡ 0
      → (p : ListResponse) × (us : List User) × ((dir.page everything (pos 1) opts.page_size d).0
          ≡ ok p)
        × IsUsable p us
  unfolding run_checks
  run_checks-usable d h =
      let w = check_credential dir texts now opts (fresh_runner d) in
      let ready = credential-Ready (anything dir) texts now opts (fresh_runner d) in
      let course = later-Course w ready h in
      let (p, us, read) = credential-HasRead dir texts now opts d course.start in
      (p, us, read.0, usable d w p us read course)

module _ {D : Type 0} (dir : Directory D) (texts : Texts) (now : D → Time) (opts : Options) where
  -- When no case of a report has failed, the first page of the directory was served and is fit for a synchronization:
  -- every record of it decodes, they are no more than the total that it states, no id is blank and no two records
  -- have one id, and every record says whether it is active and when it was modified.
  pub check-usable :
      (base_url : String) (d : D)
      → is_ok (check dir texts now opts base_url d).0 ≡ true
      → (p : ListResponse) × (us : List User) × ((dir.page everything
            (pos 1)
            (with_default opts).page_size
            d).0
          ≡ ok p)
        × IsUsable dir texts now (with_default opts) p us
  unfolding check counts is_ok
  check-usable base_url d h =
      let w = run_checks dir texts now (with_default opts) (fresh_runner d) in
      let zeros : Counts = record { passed = 0; failed = 0; skipped = 0 } in
      run_checks-usable dir texts now (with_default opts) d
        (ground (arith, failed-fails w.cases zeros, h))
