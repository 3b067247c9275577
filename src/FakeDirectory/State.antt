-- ===== src/FakeDirectory/State.antt =====
-- scimtest/scimtest.go, lines 26 to 159: the state of the fake directory, and what a test does to it.
use helppi_scim_go.Prelude.{
  ℕ, String, ◌=ₛ◌, Bool, false, not, Option, none, some, List, [], ◌∷◌, ◌++◌, if◌then◌else◌,
}
use helppi_scim_go.Scim.Types.{User, Time}

pub record PatchRecord : Type 0 where
  pub id : String
  pub external_id : String

pub record Fault : Type 0 where
  pub status : ℕ
  pub retry_after : String

pub record RawResponse : Type 0 where
  pub status : ℕ
  pub content_type : String
  pub body : String

-- `bound` is the Go map from an external id to a directory id, as a list of its entries.
pub record Directory : Type 0 where
  pub users : List User
  pub bound : List (String × String)
  pub faults : List Fault
  pub raws : List RawResponse
  pub requests : ℕ
  pub patches : List PatchRecord
  pub ignore_start_index : Bool

-- The map without a key, and with the key set to a value.
unfoldable pub without : String → List (String × String) → List (String × String)
without k [] = []
without k ((j, v) ∷ m) = if j =ₛ k then without k m else (j, v) ∷ without k m

abbrev pub set : String → String → List (String × String) → List (String × String)
set k v m = (k, v) ∷ without k m

unfoldable pub lookup : String → List (String × String) → Option String
lookup k [] = none
lookup k ((j, v) ∷ m) = if j =ₛ k then some v else lookup k m

-- `Start`: the bindings of the records that have an external id.
unfoldable pub bindings : List User → List (String × String) → List (String × String)
unfolding without
bindings [] m = m
bindings (u ∷ us) m = bindings us (if u.external_id =ₛ "" then m else set u.external_id u.id m)

unfoldable pub start : List User → Directory
unfolding bindings
start users = record {
  users = users;
  bound = bindings users [];
  faults = [];
  raws = [];
  requests = 0;
  patches = [];
  ignore_start_index = false;
}

abbrev pub respond_next_raw : ℕ → String → String → Directory → Directory
respond_next_raw status content_type body d = record d {
  raws = d.raws ++ record { status = status; content_type = content_type; body = body } ∷ [];
}

abbrev pub set_ignore_start_index : Bool → Directory → Directory
set_ignore_start_index v d = record d { ignore_start_index = v }

abbrev pub fail_next : ℕ → String → Directory → Directory
fail_next status retry_after d = record d {
  faults = d.faults ++ record { status = status; retry_after = retry_after } ∷ [];
}

unfoldable pub find : String → List User → Option User
find id [] = none
find id (u ∷ us) = if u.id =ₛ id then some u else find id us

-- `User`
abbrev pub user : String → Directory → Option User
user id d = find id d.users

unfoldable pub touched : String → Time → (User → User) → List User → List User
touched id at mutate [] = []
touched id at mutate (u ∷ us) =
    if not (u.id =ₛ id)
    then u ∷ touched id at mutate us
    else (let v = mutate u in record v { meta = record v.meta { last_modified = at } }) ∷ us

abbrev pub touch : String → Time → (User → User) → Directory → Directory
touch id at mutate d = record d { users = touched id at mutate d.users }

abbrev pub bind : String → String → Directory → Directory
bind external_id directory_id d = record d { bound = set external_id directory_id d.bound }
