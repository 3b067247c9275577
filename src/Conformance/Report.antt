-- ===== src/Conformance/Report.antt =====
-- conformance/conformance.go: the cases, the report, and the options of a run. `Detail`, a text for the
-- operator, is left out.
use helppi_scim_go.Prelude.{ℕ, ◌+◌, String, Bool, List, [], ◌∷◌, ◌==◌, ℤ}
use helppi_scim_go.Scim.Types.{Time}

pub data Status : Type 0 where
  pass fail skip : Status

pub record Phase : Type 0 where
  pub name : String
  pub title : String

abbrev pub phase_one : Phase
phase_one = record { name = "1"; title = "Directory synchronization" }

abbrev pub phase_two : Phase
phase_two = record { name = "2"; title = "Write-back of your identifier" }

-- The constants of a case; `phase` is the name of its phase.
pub record Criterion : Type 0 where
  pub id : String
  pub phase : String
  pub title : String
  pub criterion : String

pub record Case : Type 0 where
  pub about : Criterion
  pub status : Status

pub record Report : Type 0 where
  pub base_url : String
  pub started_at : Time
  pub finished_at : Time
  pub cases : List Case

pub record Counts : Type 0 where
  pub passed : ℕ
  pub failed : ℕ
  pub skipped : ℕ

abbrev pub count_one : Status → Counts → Counts
count_one pass n = record n { passed = n.passed + 1 }
count_one fail n = record n { failed = n.failed + 1 }
count_one skip n = record n { skipped = n.skipped + 1 }

unfoldable pub count_from : List Case → Counts → Counts
count_from [] n = n
count_from (c ∷ cs) n = count_from cs (count_one c.status n)

unfoldable pub counts : Report → Counts
unfolding count_from
counts r = count_from r.cases (record { passed = 0; failed = 0; skipped = 0 })

unfoldable pub is_ok : Report → Bool
unfolding counts
is_ok r = (counts r).failed == 0

pub record Options : Type 0 where
  pub alias_domain : String
  pub write_id : String
  pub probe_external_id : String
  pub page_size : ℤ
