-- ===== src/FakeDirectory/Answers.antt =====
-- scimtest/scimtest.go, lines 211 to 279 and 332 to 349: the requests that read. A request is data: its numbers are what
-- `strconv.Atoi` returned for them, `since` is the instant of its filter (the zero time where there is none), and `body`
-- is what the decoder read.
use helppi_scim_go.Prelude.{
  ℕ, zero, suc, itoa, ◌+◌, ◌-◌, String, Bool, true, false, ◌||◌, Option, none, some, List, [], ◌∷◌,
  map, length, take, drop, ltb, if◌then◌else◌, ℤ, pos, negsuc,
}
use helppi_scim_go.Exec.{ScimError, schema_error}
use helppi_scim_go.Scim.Types.{
  User, Time, ListResponse, PatchOp, decodes, schema_list, ProviderConfig,
}
use helppi_scim_go.Directory.Walk.{is_zero}
use helppi_scim_go.FakeDirectory.State.{Directory, user}

-- A request, as the handlers read it.
pub record Call : Type 0 where
  pub method : String
  pub path : String
  pub authorization : String
  pub start_index : ℤ
  pub count : ℤ
  pub since : Time
  pub body : Option PatchOp

-- The body of an answer.
pub data Body : Type 0 where
  listing : ListResponse → Body
  one_user : User → Body
  failure : ScimError → Body
  config : ProviderConfig → Body
  raw : String → Body

-- An empty `content_type` or `retry_after` is a header that the handler does not set.
pub record Reply : Type 0 where
  pub status : ℕ
  pub content_type : String
  pub retry_after : String
  pub body : Body

abbrev scim_json : String
scim_json = "application/scim+json"

abbrev pub write_json : ℕ → Body → Reply
write_json status body = record {
  status = status;
  content_type = scim_json;
  retry_after = "";
  body = body;
}

abbrev pub write_error : ℕ → String → String → Reply
write_error status scim_type detail = write_json status (
    failure (record {
      schemas = schema_error ∷ [];
      status = itoa status;
      scim_type = scim_type;
      detail = detail;
      http_status = pos 0;
    }))

abbrev schema_user : String
schema_user = "urn:ietf:params:scim:schemas:core:2.0:User"

-- A record as it is served; the encoder of a record and the client's decoder are taken to agree.
abbrev pub served : User → User
served u = record u { schemas = schema_user ∷ [] }

unfoldable pub matched : Time → List User → List User
matched since [] = []
matched since (u ∷ us) =
    if is_zero since || ltb since u.last_modified then u ∷ matched since us else matched since us

-- The 0-based position that `startIndex` names.
abbrev from_index : ℤ → Bool → ℕ
from_index i true = 0
from_index (pos n) false = n - 1
from_index (negsuc n) false = 0

abbrev page_count : ℤ → ℕ
page_count (pos zero) = 100
page_count (pos (suc n)) = suc n
page_count (negsuc n) = 100

unfoldable pub list : Call → Directory → Reply
unfolding matched
list c d =
    let all = matched c.since d.users in
    let k = from_index c.start_index d.ignore_start_index in
    let page = take (page_count c.count) (drop k all) in
    write_json 200 (
      listing (record {
        schemas = schema_list ∷ [];
        total_results = pos (length all);
        start_index = pos (k + 1);
        items_per_page = pos (length page);
        resources = map (λ u. decodes (served u)) page;
      }))

unfoldable pub get : String → Directory → Reply
get id d = elim (user id d) [
  | none ↦ write_error 404 "" "unknown identifier for this partner"
  | some u ↦ write_json 200 (one_user (served u))
]
