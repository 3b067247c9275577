-- ===== src/Conformance/Suite/Cases.antt =====
-- The cases and the counts of a report (conformance/conformance.go, lines 65 to 92 and 121 to 138).
use helppi_scim_go.Prelude.{ℕ, suc, ◌+◌, String, false, List, [], ◌∷◌, ◌≡◌, refl, ap, arith, length}
use helppi_scim_go.Scim.Types.{Time}
use helppi_scim_go.Conformance.Report.{
  Status, pass, fail, skip, Case, Counts, count_one, count_from, counts, Options,
}
use helppi_scim_go.Conformance.Runner.{Directory, Runner, fresh_runner}
use helppi_scim_go.Conformance.Adds.{Reading, criteria}
use helppi_scim_go.Conformance.PhaseOne.{Texts}
use helppi_scim_go.Conformance.PhaseTwo.{check, run_checks, with_default}
use helppi_scim_go.Conformance.Suite.Probes.{Writing}
use helppi_scim_go.Conformance.Suite.Run.{run_checks-Ran, suite}

abbrev total : Counts → ℕ
total n = n.passed + n.failed + n.skipped

count_one-total : (s : Status) (n : Counts) → total (count_one s n) ≡ 1 + total n
count_one-total pass n = omega arith
count_one-total fail n = omega arith
count_one-total skip n = omega arith

count_from-total : (cs : List Case) (n : Counts) → total (count_from cs n) ≡ length cs + total n
unfolding count_from
count_from-total [] n = omega arith
count_from-total (c ∷ cs) n =
    omega (arith, count_from-total cs (count_one c.status n), count_one-total c.status n)

length-criteria : (cs : List Case) → length (criteria cs) ≡ length cs
length-criteria [] = refl
length-criteria (c ∷ cs) = ap suc (length-criteria cs)

module _ {D : Type 0} (dir : Directory D) where
  -- The relation that all states are in.
  unfoldable pub anything : Reading dir
  anything = record {
    Reads = λ d e. Unit {0};
    Reads-refl = λ d. tt;
    Reads-trans = λ d e f p q. tt;
    page-Reads = λ q i n d. tt;
    get_user-Reads = λ id d. tt;
    config-Reads = λ d. tt;
  }

  pub anything-Writing : (opts : Options) → Writing anything opts
  unfolding anything
  anything-Writing opts = record {
    held = λ d d' u n r a. tt;
    held_active = λ d d' u b n r e a. tt;
    probed = λ d u n e. tt;
  }

module _ {D : Type 0} (dir : Directory D) (texts : Texts) (now : D → Time) (opts : Options) where
  counted :
      (w : Runner D)
      → criteria w.cases ≡ suite
      → total (count_from w.cases (record { passed = 0; failed = 0; skipped = 0 })) ≡ 14
  counted w h = omega (
    arith,
    count_from-total w.cases (record { passed = 0; failed = 0; skipped = 0 }),
    length-criteria w.cases,
    ap length h,
  )

  -- A run against any directory, whatever it answers, follows no nil pointer and reports the fourteen cases of the
  -- suite, each once and in the order of the suite; those that passed, failed and were skipped are fourteen together.
  pub check-cases :
      (base_url : String) (d : D)
      → let (report, w) = check dir texts now opts base_url d in
        (w.panicked ≡ false)
        × (criteria report.cases ≡ suite)
        × (let n = counts report in n.passed + n.failed + n.skipped ≡ 14)
  unfolding check counts
  check-cases base_url d =
      let w = fresh_runner d in
      let h =
        run_checks-Ran (anything dir) texts now (with_default opts)
          (anything-Writing dir (with_default opts)) w in
      let w' = run_checks dir texts now (with_default opts) w in
      (h.panicked_kept, h.added, counted w' h.added)
