-- ===== src/FakeDirectory/RoundTrip.antt =====
-- A write and the reads after it (scimtest/scimtest.go, lines 280 to 337).
use helppi_scim_go.Prelude.{String, ◌=ₛ◌, false, [], ◌∷◌, ◌++◌, ◌≡◌}
use helppi_scim_go.Scim.Types.{User}
use helppi_scim_go.FakeDirectory.State.{Directory}
use helppi_scim_go.FakeDirectory.Answers.{Reply, one_user, write_json, served, get}
use helppi_scim_go.FakeDirectory.Writes.{stamped}

-- What an accepted write of an external id answers, and what the reads find after it.
pub record Written (id value : String) (u : User) (d : Directory) (r : Reply) (d' : Directory)
    : Type 0 where
  pub answer : r ≡ write_json 200 (one_user (served (stamped value u)))
  pub read : get id d' ≡ r
  pub others : (other : String) → (id =ₛ other) ≡ false → get other d' ≡ get other d
  pub logged : d'.patches ≡ d.patches ++ record { id = id; external_id = value } ∷ []
