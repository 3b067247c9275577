-- ===== src/Conformance/Suite/Run.antt =====
-- The whole run (conformance/checks.go, lines 47 to 91, and conformance/conformance.go, lines 121 to 138).
use helppi_scim_go.Prelude.{
  Bool, true, false, some, List, [], ◌∷◌, ◌++◌, ◌≡◌, refl, ap, ◌∙◌, if◌then◌else◌, arith, pos,
}
use helppi_scim_go.Exec.{Result, ok, err, is_credential}
use helppi_scim_go.Scim.Types.{User, Time, ListResponse, everything, users}
use helppi_scim_go.Conformance.Report.{Status, pass, fail, Criterion, Options}
use helppi_scim_go.Conformance.Runner.{Directory, Runner, add, ask}
use helppi_scim_go.Conformance.Adds.{
  Reading, Adds, Adds-refl, Adds-trans, Adds-Ready, Ready, Sound, criteria, criteria-append,
}
use mathlib.Core.List.{append_assoc}
use helppi_scim_go.Conformance.Criteria.{
  credential_accepted, list_responses, stable_ids, active_flag, aliases, usable_watermark,
  honored_paging,
}
use helppi_scim_go.Conformance.PhaseOne.{Texts, check_credential, credential_page, credential_users}
use helppi_scim_go.Conformance.Capabilities.{
  working_filter, single_read, typed_not_found, advertised,
}
use helppi_scim_go.Conformance.PhaseTwo.{
  accepted_write, idempotent_write, read_only_attributes, phase_two_checks, later_checks,
  run_checks,
}
use helppi_scim_go.Conformance.Suite.{
  envelope-Sound, stable_ids-Sound, active_flag-Sound, alias-Sound, meta-Sound, pagination-Sound,
  filtering-Sound, single_read-Sound, unknown_id-Sound, provider_config-Sound,
}
use helppi_scim_go.Conformance.Suite.Probes.{Writing, phase_two-Adds}

-- The criteria after the credential, in the order of the checks.
abbrev later : List Criterion
later =
    list_responses ∷ stable_ids ∷ active_flag ∷ aliases ∷ usable_watermark ∷ honored_paging
    ∷ working_filter ∷ single_read ∷ typed_not_found ∷ advertised ∷ []

abbrev probes : List Criterion
probes = accepted_write ∷ idempotent_write ∷ read_only_attributes ∷ []

abbrev pub suite : List Criterion
suite = credential_accepted ∷ later ++ probes

module _ {D : Type 0} {dir : Directory D} (reading : Reading dir) (texts : Texts) (now : D → Time)
    (opts : Options) where
  -- After the credential: the run is blocked, or there is a first page.
  abbrev Begun : Runner D → Runner D → Type 0
  Begun w w' =
      reading.Reads w.dir w'.dir
      × Ready reading w'
      × (w'.panicked ≡ w.panicked)
      × (criteria w'.cases ≡ criteria w.cases ++ credential_accepted ∷ [])

  extended :
      (v w : Runner D) (s : Status)
      → w.cases ≡ v.cases
      → criteria (w.cases ++ record { about = credential_accepted; status = s } ∷ [])
        ≡ criteria v.cases ++ credential_accepted ∷ []
  extended v w s same =
      criteria-append w.cases (record { about = credential_accepted; status = s } ∷ [])
      ∙ ap (λ cs. criteria cs ++ credential_accepted ∷ []) same

  users-Begun :
      (r : Result (List User)) (v w : Runner D) (p : ListResponse)
      → reading.Reads v.dir w.dir
      → w.page ≡ some p
      → w.panicked ≡ v.panicked
      → w.cases ≡ v.cases
      → Begun v (credential_users dir texts now opts r w)
  unfolding credential_users
  users-Begun (err e) v w p h page quiet same = (h, ground arith, quiet, extended v w fail same)
  users-Begun (ok us) v w p h page quiet same = (h, (λ e. (p, page)), quiet, extended v w pass same)

  page-Begun :
      (r : Result ListResponse) (v w : Runner D)
      → reading.Reads v.dir w.dir
      → w.panicked ≡ v.panicked
      → w.cases ≡ v.cases
      → Begun v (credential_page dir texts now opts r w)
  unfolding credential_page
  page-Begun (ok p) v w h quiet same =
      users-Begun (users p) v (record w { page = some p }) p h refl quiet same
  page-Begun (err e) v w h quiet same = rejected (is_credential e)
    where
      rejected :
          (b : Bool)
          → Begun v (
              if b
              then add credential_accepted fail
                  (record w { blocked = "the credential was rejected" })
              else add credential_accepted fail
                  (record w { blocked = "the directory could not be read" }))
      rejected true = (h, ground arith, quiet, extended v w fail same)
      rejected false = (h, ground arith, quiet, extended v w fail same)

  credential-Begun : (w : Runner D) → Begun w (check_credential dir texts now opts w)
  unfolding check_credential
  credential-Begun w =
      let (r, w') = ask (dir.page everything (pos 1) opts.page_size) w in
      page-Begun r w w' (reading.page-Reads everything (pos 1) opts.page_size w.dir) refl refl

  pub credential-Ready : (w : Runner D) → Ready reading (check_credential dir texts now opts w)
  credential-Ready w = (credential-Begun w).1

  step :
      {c : Criterion} {cs : List Criterion} {f : Runner D → Runner D} {v x : Runner D}
      → Ready reading v
      → Sound reading c f
      → (Ready reading (f v) → Adds reading cs (f v) x)
      → Adds reading (c ∷ cs) v x
  step {c} {cs} {f} {v} {x} ready sound rest =
      Adds-trans reading (c ∷ []) cs v (f v) x (sound v ready)
        (rest (Adds-Ready reading (c ∷ []) v (f v) (sound v ready) ready))

  later-Adds :
      (w : Runner D) → Ready reading w → Adds reading later w (later_checks dir texts now opts w)
  later-Adds w ready = step ready (envelope-Sound reading texts now opts) (λ r1.
      (step r1 (stable_ids-Sound reading texts now opts) (λ r2.
        (step r2 (active_flag-Sound reading texts now opts) (λ r3.
          (step r3 (alias-Sound reading texts now opts) (λ r4.
            (step r4 (meta-Sound reading texts now opts) (λ r5.
              (step r5 (pagination-Sound reading texts now opts) (λ r6.
                (step r6 (filtering-Sound reading texts now opts) (λ r7.
                  (step r7 (single_read-Sound reading texts now opts) (λ r8.
                    (step r8 (unknown_id-Sound reading texts now opts) (λ r9.
                      (step r9 (provider_config-Sound reading texts now opts) (λ r10.
                        Adds-refl reading (later_checks dir texts now opts w))))))))))))))))))))

  -- A run adds the fourteen cases, and what it does to the directory is in the relation.
  pub record Ran (w w' : Runner D) : Type 0 where
    pub reads : reading.Reads w.dir w'.dir
    pub panicked_kept : w'.panicked ≡ w.panicked
    pub added : criteria w'.cases ≡ criteria w.cases ++ suite

  pub run_checks-Ran :
      Writing reading opts → (w : Runner D) → Ran w (run_checks dir texts now opts w)
  unfolding run_checks
  run_checks-Ran writing w =
      let w₁ = check_credential dir texts now opts w in
      let w₂ = later_checks dir texts now opts w₁ in
      let w₃ = phase_two_checks dir opts w₂ in
      let (reads, ready, quiet, cases) = credential-Begun w in
      let h =
        Adds-trans reading later probes w₁ w₂ w₃ (later-Adds w₁ ready)
          (phase_two-Adds opts writing w₂) in
      record {
        reads = reading.Reads-trans w.dir w₁.dir w₃.dir reads h.reads;
        panicked_kept = h.panicked_kept ∙ quiet;
        added =
            h.added
            ∙ ap (λ cs. cs ++ (later ++ probes)) cases
            ∙ append_assoc (criteria w.cases) (credential_accepted ∷ []) (later ++ probes);
      }
