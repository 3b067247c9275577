-- ===== src/Scim/Types.antt =====
-- scim/types.go: the records of the directory, as the client decodes them. An instant is its
-- distance in nanoseconds from Go's zero time, so `IsZero` is the test for 0.
use helppi_scim_go.Prelude.{
  ℕ, String, Bool, Option, none, some, List, [], ◌∷◌, ℤ, if◌then◌else◌, ◌+◌, ◌+ₛ◌, itoa,
}
use helppi_scim_go.Exec.{Result, ok, err, message, wrap}

abbrev pub Time : Type 0
Time = ℕ

pub record Email : Type 0 where
  pub value : String
  pub primary : Bool
  pub kind : String

pub record Name : Type 0 where
  pub given_name : String
  pub family_name : String

pub record Meta : Type 0 where
  pub resource_type : String
  pub created : Time
  pub last_modified : Time

-- `active` is a pointer in the source: `none` is a record without the attribute.
pub record User : Type 0 where
  pub schemas : List String
  pub id : String
  pub external_id : String
  pub user_name : String
  pub display_name : String
  pub name : Name
  pub emails : List Email
  pub active : Option Bool
  pub meta : Meta
  pub open meta use {last_modified}

first_primary : List Email → Option String
first_primary [] = none
first_primary (e ∷ es) = if e.primary then some e.value else first_primary es

first_or : List Email → String → String
first_or [] d = d
first_or (e ∷ es) d = e.value

abbrev some_or {ℓ} : {A : Type ℓ} → Option A → A → A
some_or none d = d
some_or (some a) d = a

-- The address marked primary, else the first one, else the user name.
unfoldable pub primary_email : User → String
unfolding first_primary first_or
primary_email u = some_or (first_primary u.emails) (first_or u.emails u.user_name)

-- The query that the reconciler sends, in place of its text: no filter, or
-- `meta.lastModified gt "<instant>"` with the instant written in whole seconds.
pub data Filter : Type 0 where
  everything : Filter
  modified_after : ℤ → Filter

abbrev pub schema_list : String
schema_list = "urn:ietf:params:scim:api:messages:2.0:ListResponse"

abbrev pub schema_patch_op : String
schema_patch_op = "urn:ietf:params:scim:api:messages:2.0:PatchOp"

-- A record of a page as `json.Unmarshal` reads it into a `User`: the record, or the decoder's error.
pub data Raw : Type 0 where
  decodes : User → Raw
  undecodable : String → Raw

pub record ListResponse : Type 0 where
  pub schemas : List String
  pub total_results : ℤ
  pub start_index : ℤ
  pub items_per_page : ℤ
  pub resources : List Raw

-- `Users`, on the records from the index `i` on.
unfoldable pub users_from : ℕ → List Raw → Result (List User)
users_from i [] = ok []
users_from i (undecodable text ∷ l) = err (wrap ("decode record " +ₛ itoa i) (message text))
users_from i (decodes u ∷ l) = elim (users_from (i + 1) l) [ ok us ↦ ok (u ∷ us) | err e ↦ err e ]

unfoldable pub users : ListResponse → Result (List User)
unfolding users_from
users lr = users_from 0 lr.resources

pub record ProviderConfig : Type 0 where
  pub schemas : List String
  pub patch_supported : Bool
  pub filter_supported : Bool
  pub filter_max_results : ℤ

-- The value of an operation: a text or a Boolean, the two that the code sends.
pub data Value : Type 0 where
  text : String → Value
  flag : Bool → Value

pub record Operation : Type 0 where
  pub op : String
  pub path : String
  pub value : Value

pub record PatchOp : Type 0 where
  pub schemas : List String
  pub operations : List Operation

-- The only write that the client performs.
unfoldable pub new_external_id_patch : String → PatchOp
new_external_id_patch external_id = record {
  schemas = schema_patch_op ∷ [];
  operations = record { op = "replace"; path = "externalId"; value = text external_id } ∷ [];
}
