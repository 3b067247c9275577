-- ===== src/Conformance/Command.antt =====
-- cmd/conformance/main.go: the command that runs the suite and tells its outcome by its exit code.
pub mod Exits
use helppi_scim_go.Prelude.{
  ℕ, String, ◌=ₛ◌, Bool, true, false, not, ◌||◌, Option, none, some, ℤ, if◌then◌else◌,
}
use helppi_scim_go.Exec.{Result, ok, err, Error, message}
use helppi_scim_go.Scim.Types.{Time}
use helppi_scim_go.Conformance.Report.{Report, Options, is_ok}
use helppi_scim_go.Conformance.Runner.{Directory}
use helppi_scim_go.Conformance.PhaseOne.{Texts}
use helppi_scim_go.Conformance.PhaseTwo.{check}

-- The flags and the environment that decide the outcome, what `scim.New` makes of them, and the JSON encoder.
pub record Launch (D : Type 0) : Type 0 where
  pub base_url : String
  pub token : String
  pub alias_domain : String
  pub write_id : String
  pub probe_value : String
  pub page_size : ℤ
  pub as_json : Bool
  pub client : Result (Directory D)
  pub encode : Report → Option Error

-- How `run` ends: with an error, by `os.Exit(1)`, or with nil.
pub data Ending : Type 0 where
  failed : Error → Ending
  exited_one : Ending
  ended : Ending

-- `main`
unfoldable pub exit_code : Ending → ℕ
exit_code (failed e) = 2
exit_code exited_one = 1
exit_code ended = 0

abbrev pub options_of : {D : Type 0} → Launch D → Options
options_of launch = record {
  alias_domain = launch.alias_domain;
  write_id = launch.write_id;
  probe_external_id = launch.probe_value;
  page_size = launch.page_size;
}

-- From the report on.
unfoldable pub judged : Report → Ending
judged report = if not (is_ok report) then exited_one else ended

unfoldable pub printed : {D : Type 0} → Launch D → Report → Ending
unfolding judged
printed launch report =
    if launch.as_json
    then elim (launch.encode report) [ some e ↦ failed e | none ↦ judged report ]
    else judged report

module _ {D : Type 0} (texts : Texts) (now : D → Time) (launch : Launch D) where
  unfoldable pub with_client : Result (Directory D) → D → Ending
  unfolding printed
  with_client (err e) d = failed e
  with_client (ok dir) d =
      printed launch (check dir texts now (options_of launch) launch.base_url d).0

  unfoldable pub run : D → Ending
  unfolding with_client
  run d =
      if launch.base_url =ₛ "" || launch.token =ₛ ""
      then failed (message "set -base-url (or DIRECTORY_BASE_URL) and DIRECTORY_TOKEN")
      else with_client launch.client d
