-- ===== src/FakeDirectory/Writes.antt =====
-- scimtest/scimtest.go, lines 281 to 330: the write of an external id.
use helppi_scim_go.Prelude.{
  ℕ, ◌+◌, String, ◌=ₛ◌, Bool, false, not, ◌&&◌, Option, none, some, List, [], ◌∷◌, ◌++◌,
  if◌then◌else◌,
}
use helppi_scim_go.Scim.Types.{User, PatchOp, Operation, Value, text, flag}
use helppi_scim_go.Conformance.Runner.{no_user}
use helppi_scim_go.FakeDirectory.State.{Directory, user, find, set, without, lookup}
use helppi_scim_go.FakeDirectory.Answers.{Call, Reply, one_user, write_json, write_error, served}

-- The entries of the map but those of an identity under another external id.
unfoldable pub released : String → String → List (String × String) → List (String × String)
released id value [] = []
released id value ((k, owner) ∷ m) =
    if owner =ₛ id && not (k =ₛ value)
    then released id value m
    else (k, owner) ∷ released id value m

-- `time.Second`
abbrev second : ℕ
second = 1000000000

-- The record with the external id, at the time of the write.
abbrev pub stamped : String → User → User
stamped value u = record u {
  external_id = value;
  meta = record u.meta { last_modified = u.last_modified + second };
}

unfoldable pub rewritten : String → String → List User → List User
rewritten id value [] = []
rewritten id value (u ∷ us) = (if u.id =ₛ id then stamped value u else u) ∷ rewritten id value us

-- `owner, taken := d.bound[value]; taken && owner != id`
abbrev pub taken_by_other : String → Option String → Bool
taken_by_other id none = false
taken_by_other id (some owner) = not (owner =ₛ id)

-- `value, _ := o.Value.(string)`
abbrev pub text_of : Value → String
text_of (text s) = s
text_of (flag b) = ""

-- An accepted write.
unfoldable pub write : String → String → Directory → Directory
unfolding released rewritten without
write id value d = record d {
  users = rewritten id value d.users;
  bound = set value id (released id value d.bound);
  patches = d.patches ++ record { id = id; external_id = value } ∷ [];
}

-- The operations in turn, up to the first that is refused.
unfoldable pub write_all : String → List Operation → Directory → Option Reply × Directory
unfolding lookup write
write_all id [] d = (none, d)
write_all id (o ∷ os) d =
    if not (o.path =ₛ "externalId")
    then (
      some (
          write_error 403 "mutability"
            "attribute is read-only for this partner; writable attributes: externalId"),
      d,
    )
    else if taken_by_other id (lookup (text_of o.value) d.bound)
    then (some (write_error 409 "uniqueness" "externalId already assigned to another identity"), d)
    else write_all id os (write id (text_of o.value) d)

-- The record after the operations, the zero `User` where it is gone.
abbrev or_no_user : Option User → User
or_no_user none = no_user
or_no_user (some u) = u

abbrev pub answer : String → Option Reply × Directory → Reply × Directory
answer id (some r, d) = (r, d)
answer id (none, d) = (write_json 200 (one_user (served (or_no_user (user id d)))), d)

abbrev pub known_patch : String → PatchOp → Option User → Directory → Reply × Directory
known_patch id op none d = (write_error 404 "" "unknown identifier for this partner", d)
known_patch id op (some u) d = answer id (write_all id op.operations d)

abbrev pub decoded_patch : String → Option PatchOp → Directory → Reply × Directory
decoded_patch id none d = (write_error 400 "invalidSyntax" "malformed PatchOp", d)
decoded_patch id (some op) d = known_patch id op (user id d) d

unfoldable pub patch : String → Call → Directory → Reply × Directory
unfolding write_all find
patch id c d = decoded_patch id c.body d
