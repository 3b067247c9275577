-- ===== src/Conformance/Command/Exits.antt =====
-- What the exit code of cmd/conformance/main.go tells.
use helppi_scim_go.Prelude.{
  ℕ, zero, suc, ◌=ₛ◌, Bool, true, false, not, ◌||◌, List, ◌≡◌, refl, pos, Bool-cases, Option-cases,
  inl, inr, if◌then◌else◌,
}
use helppi_scim_go.Exec.{Result, ok, err}
use helppi_scim_go.Scim.Types.{Time, User, ListResponse, everything}
use helppi_scim_go.Conformance.Report.{Report, is_ok}
use helppi_scim_go.Conformance.Runner.{Directory}
use helppi_scim_go.Conformance.PhaseOne.{Texts}
use helppi_scim_go.Conformance.PhaseTwo.{check, with_default}
use helppi_scim_go.Conformance.Command.{
  Launch, exited_one, ended, exit_code, options_of, judged, printed, with_client, run,
}
use helppi_scim_go.Conformance.Suite.Verdict.{IsUsable, check-usable}

module _ {D : Type 0} (texts : Texts) (now : D → Time) (launch : Launch D) (d : D) where
  -- The first page was served and is fit for a synchronization.
  abbrev pub ServesUsable : Directory D → Type 0
  ServesUsable dir =
      (p : ListResponse) × (us : List User) × ((dir.page everything (pos 1)
          (with_default (options_of launch)).page_size d).0
        ≡ ok p)
      × IsUsable dir texts now (with_default (options_of launch)) p us

  abbrev pub report_on : Directory D → Report
  report_on dir = (check dir texts now (options_of launch) launch.base_url d).0

  -- What an exit code tells of the directory that the client reaches.
  abbrev pub Tells : ℕ → Result (Directory D) → Type 0
  Tells zero (ok dir) = (is_ok (report_on dir) ≡ true) × ServesUsable dir
  Tells zero (err e) = ⊥
  Tells (suc zero) (ok dir) = is_ok (report_on dir) ≡ false
  Tells (suc zero) (err e) = ⊥
  Tells (suc (suc n)) r = Unit {0}

  judged-Tells :
      (dir : Directory D) (b : Bool)
      → is_ok (report_on dir) ≡ b
      → Tells (exit_code (if not b then exited_one else ended)) (ok dir)
  unfolding exit_code
  judged-Tells dir true h = (h, check-usable dir texts now (options_of launch) launch.base_url d h)
  judged-Tells dir false h = h

  report-Tells : (dir : Directory D) → Tells (exit_code (judged (report_on dir))) (ok dir)
  unfolding judged
  report-Tells dir = judged-Tells dir (is_ok (report_on dir)) refl

  printed-Tells : (dir : Directory D) → Tells (exit_code (printed launch (report_on dir))) (ok dir)
  unfolding printed exit_code
  printed-Tells dir = elim (Bool-cases launch.as_json) [
    | inl json ↦ elim (Option-cases (launch.encode (report_on dir))) [
      | inl written ↦ simp (json, written) (report-Tells dir)
      | inr (e, broken) ↦ simp (json, broken) tt
    ]
    | inr text ↦ simp text (report-Tells dir)
  ]

  with_client-Tells :
      (r : Result (Directory D)) → Tells (exit_code (with_client texts now launch r d)) r
  unfolding with_client exit_code
  with_client-Tells (err e) = tt
  with_client-Tells (ok dir) = printed-Tells dir

  -- The exit code is 0 only if the suite ran and no case failed, and then the first page of the directory was served and
  -- is fit for a synchronization; it is 1 only if the suite ran and a case failed.
  pub exit_code-Tells : Tells (exit_code (run texts now launch d)) launch.client
  unfolding run exit_code
  exit_code-Tells = elim (Bool-cases (launch.base_url =ₛ "" || launch.token =ₛ "")) [
    | inl missing ↦ rw missing tt
    | inr given ↦ rw given (with_client-Tells launch.client)
  ]
