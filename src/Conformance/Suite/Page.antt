-- ===== src/Conformance/Suite/Page.antt =====
-- What the cases on the first page tell of its records (conformance/checks.go, lines 106 to 237).
use helppi_scim_go.Prelude.{
  ◌+◌, ◌=ₛ◌, Bool, true, false, not, ◌&&◌, Option, none, some, List, [], ◌∷◌, ◌≡◌, refl, sym, ap,
  ◌∙◌, arith, pos, if◌then◌else◌, ltb, ltb_ℤ, ◌==ℤ◌, ◌==◌, length, ◌⊎◌, inl, inr,
}
use helppi_scim_go.Scim.Types.{Time, User, ListResponse}
use helppi_scim_go.Conformance.Report.{pass, fail, skip, Criterion, Options}
use helppi_scim_go.Conformance.Runner.{Directory, Runner, add, unblocked, reading_page}
use helppi_scim_go.Conformance.Adds.{fails, fails-append}
use helppi_scim_go.Conformance.Criteria.{list_responses, stable_ids, active_flag, usable_watermark}
use helppi_scim_go.Conformance.PhaseOne.{
  Texts, ids_stable, all_active, all_dated, check_envelope, check_stable_ids, check_active_flag,
  check_meta, on_records, hour,
}

module _ {D : Type 0} (dir : Directory D) (texts : Texts) (now : D → Time) (opts : Options) where
  no_users : (us : List User) → (length us == 0) ≡ true → us ≡ []
  no_users [] h = refl
  no_users (u ∷ us) h = ground arith

  pub one_more : (c : Criterion) (w : Runner D) → fails (add c fail w).cases ≡ fails w.cases + 1
  unfolding fails
  one_more c w = fails-append w.cases (record { about = c; status = fail } ∷ [])

  passed_on :
      (b : Bool) (c : Criterion) (w x : Runner D)
      → fails (if b then x else add c fail w).cases ≡ 0
      → b ≡ true
  passed_on true c w x h = refl
  passed_on false c w x h = ground (arith, one_more c w)

  refused_on :
      (b : Bool) (c : Criterion) (w x : Runner D)
      → fails (if b then add c fail w else x).cases ≡ 0
      → (b ≡ false) × (fails x.cases ≡ 0)
  refused_on true c w x h = ground (arith, one_more c w)
  refused_on false c w x h = (refl, h)

  skipped_on :
      (b : Bool) (w v x : Runner D)
      → fails (if b then v else x).cases ≡ 0
      → (b ≡ true) ⊎ (fails x.cases ≡ 0)
  skipped_on true w v x h = inl refl
  skipped_on false w v x h = inr h

  opened :
      (c : Criterion) (f : Runner D → Runner D) (w : Runner D)
      → w.blocked ≡ ""
      → fails (unblocked c f w).cases ≡ 0
      → fails (f w).cases ≡ 0
  opened c f w e h = sym (ap (λ s. fails (if s =ₛ "" then f w else add c skip w).cases) e) ∙ h

  records-pass :
      (c : Criterion) (test : List User → Bool) (w : Runner D)
      → test [] ≡ true
      → w.blocked ≡ ""
      → fails (unblocked c (on_records dir texts now opts c test) w).cases ≡ 0
      → test w.users ≡ true
  records-pass c test w e open_run h =
      let f = on_records dir texts now opts c test in
      elim (skipped_on (length w.users == 0) w (add c skip w)
        (if test w.users then add c pass w else add c fail w) (opened c f w open_run h)) [
          | inl q ↦ ap test (no_users w.users q) ∙ e
          | inr q ↦ passed_on (test w.users) c w (add c pass w) q
        ]

  pub stable_ids-passes :
      (w : Runner D)
      → w.blocked ≡ ""
      → fails (check_stable_ids dir texts now opts w).cases ≡ 0
      → ids_stable texts [] w.users ≡ true
  unfolding check_stable_ids ids_stable
  stable_ids-passes w e h = records-pass stable_ids (ids_stable texts []) w refl e h

  pub active_flag-passes :
      (w : Runner D)
      → w.blocked ≡ ""
      → fails (check_active_flag dir texts now opts w).cases ≡ 0
      → all_active w.users ≡ true
  unfolding check_active_flag all_active
  active_flag-passes w e h = records-pass active_flag all_active w refl e h

  abbrev dated : Runner D → Runner D
  dated w =
      if not (all_dated w.users)
      then add usable_watermark fail w
      else if ltb (now w.dir + hour dir texts now opts) w.newest
      then add usable_watermark fail w
      else add usable_watermark pass w

  dated-pass : (w : Runner D) → fails (dated w).cases ≡ 0 → all_dated w.users ≡ true
  dated-pass w h =
      let e = refused_on (not (all_dated w.users)) usable_watermark w _ h in ground (arith, e.0)

  pub meta-passes :
      (w : Runner D)
      → w.blocked ≡ ""
      → fails (check_meta dir texts now opts w).cases ≡ 0
      → all_dated w.users ≡ true
  unfolding check_meta all_dated
  meta-passes w e h =
      elim (skipped_on (length w.users == 0) w (add usable_watermark skip w) (dated w) (
        opened usable_watermark
          (λ w. if length w.users == 0 then add usable_watermark skip w else dated w) w e h)) [
            | inl q ↦ ap all_dated (no_users w.users q)
            | inr q ↦ dated-pass w q
          ]

  abbrev paged : ListResponse → Runner D → Runner D
  paged p w =
      if ltb_ℤ p.total_results (pos (length p.resources))
      then add list_responses fail w
      else if ltb 0 (length p.resources) && not (p.start_index ==ℤ pos 1)
      then add list_responses fail w
      else add list_responses pass w

  with_page :
      (f : ListResponse → Runner D → Runner D) (w : Runner D) (o : Option ListResponse)
      (p : ListResponse)
      → o ≡ some p
      → fails
          (elim o as (λ x. Runner D) [ none ↦ record w { panicked = true } | some p ↦ f p w ]).cases
        ≡ 0
      → fails (f p w).cases ≡ 0
  with_page f w o p e h =
      sym (
        ap
          (λ o.
            fails
              (elim o as (λ x. Runner D) [
                | none ↦ record w { panicked = true }
                | some p ↦ f p w
              ]).cases)
          e)
      ∙ h

  pub envelope-passes :
      (w : Runner D) (p : ListResponse)
      → w.blocked ≡ ""
      → w.page ≡ some p
      → fails (check_envelope dir texts now opts w).cases ≡ 0
      → (ltb_ℤ p.total_results (pos (length p.resources)) ≡ false)
        × (ltb 0 (length p.resources) && not (p.start_index ==ℤ pos 1) ≡ false)
  unfolding check_envelope
  envelope-passes w p e page h =
      let (enough, rest) =
        refused_on (ltb_ℤ p.total_results (pos (length p.resources))) list_responses w _
          (with_page paged w w.page p page (opened list_responses (reading_page paged) w e h)) in
      (
        enough,
        (refused_on (ltb 0 (length p.resources) && not (p.start_index ==ℤ pos 1)) list_responses w _
            rest).0,
      )
