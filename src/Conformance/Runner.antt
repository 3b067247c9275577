-- ===== src/Conformance/Runner.antt =====
-- The state of a conformance run and what its checks share (conformance/conformance.go, `Directory`, and
-- conformance/checks.go, lines 13 to 43 and 93 to 99).
use helppi_scim_go.Prelude.{
  String, ◌=ₛ◌, Bool, true, false, Option, none, some, List, [], ◌∷◌, ◌++◌, ℤ, if◌then◌else◌,
}
use helppi_scim_go.Exec.{Exec, Result}
use helppi_scim_go.Scim.Types.{User, Time, Filter, ListResponse, PatchOp, ProviderConfig}
use helppi_scim_go.Conformance.Report.{Status, skip, Criterion, Case}

-- The slice of the client that the suite exercises, over the state of what it talks to.
pub record Directory (D : Type 0) : Type 0 where
  pub page : Filter → ℤ → ℤ → Exec D ListResponse
  pub get_user : String → Exec D User
  pub patch : String → PatchOp → Exec D User
  pub service_provider_config : Exec D ProviderConfig

-- `panicked` is set where the source would follow a nil pointer.
pub record Runner (D : Type 0) : Type 0 where
  pub dir : D
  pub cases : List Case
  pub page : Option ListResponse
  pub users : List User
  pub sample : User
  pub newest : Time
  pub blocked : String
  pub panicked : Bool

abbrev pub no_user : User
no_user = record {
  schemas = [];
  id = "";
  external_id = "";
  user_name = "";
  display_name = "";
  name = record { given_name = ""; family_name = "" };
  emails = [];
  active = none;
  meta = record { resource_type = ""; created = 0; last_modified = 0 };
}

module _ {D : Type 0} where
  abbrev pub fresh_runner : D → Runner D
  fresh_runner d = record {
    dir = d;
    cases = [];
    page = none;
    users = [];
    sample = no_user;
    newest = 0;
    blocked = "";
    panicked = false;
  }

  -- `pass`, `fail` and `skip`, by the status.
  abbrev pub add : Criterion → Status → Runner D → Runner D
  add c s w = record w { cases = w.cases ++ record { about = c; status = s } ∷ [] }

  -- A call of the directory.
  abbrev pub ask : {A : Type 0} → Exec D A → Runner D → Result A × Runner D
  ask f w = let (r, d) = f w.dir in (r, record w { dir = d })

  -- The check `f`, behind `blockedSkip`.
  abbrev pub unblocked : Criterion → (Runner D → Runner D) → Runner D → Runner D
  unblocked c f w = if w.blocked =ₛ "" then f w else add c skip w

  -- A check that reads the first page.
  abbrev pub reading_page : (ListResponse → Runner D → Runner D) → Runner D → Runner D
  reading_page f w = elim w.page [ none ↦ record w { panicked = true } | some p ↦ f p w ]
