-- ===== src/Exec/Errors.antt =====
-- scim/errors.go and the sentinel errors of store/store.go: an `error` is the chain of values that
-- `fmt.Errorf("...: %w", err)` builds, which `errors.Is` and `errors.As` walk.
use Prim.Native.Char.{code}
use helppi_scim_go.Prelude.{
  ℕ, ◌+◌, ◌-◌, ◌*◌, ◌^◌, String, Bool, true, false, not, ◌&&◌, ◌||◌, Option, none, some, List, [],
  ◌∷◌, ltb, leb, ◌==◌, ◌=ₛ◌, if◌then◌else◌, ℤ, pos, negsuc, ◌==ℤ◌, contains,
}

-- The code points of a text: its bytes, if it is ASCII.
abbrev pub codes : String → List ℕ
codes String.[] = []
codes (String.◌∷◌ c s) = code c ∷ codes s

-- `strconv.Atoi`: an optional sign and at least one digit, in the range of a 64-bit `int`.
atoi_digits : List ℕ → ℕ → Option ℕ
atoi_digits [] n = some n
atoi_digits (c ∷ s) n =
    if leb b'0' c && leb c b'9' then atoi_digits s (n * 10 + (c - b'0')) else none

at_least_one_digit : List ℕ → Option ℕ
unfolding atoi_digits
at_least_one_digit [] = none
at_least_one_digit (c ∷ s) = atoi_digits (c ∷ s) 0

in_range_pos : Option ℕ → Option ℤ
in_range_pos none = none
in_range_pos (some n) = if ltb n (2 ^ 63) then some (pos n) else none

in_range_neg : Option ℕ → Option ℤ
in_range_neg none = none
in_range_neg (some n) =
    if n == 0 then some (pos 0) else if leb n (2 ^ 63) then some (negsuc (n - 1)) else none

atoi_codes : List ℕ → Option ℤ
unfolding at_least_one_digit in_range_pos in_range_neg
atoi_codes [] = none
atoi_codes (c ∷ s) =
    if c == b'-'
    then in_range_neg (at_least_one_digit s)
    else if c == b'+'
    then in_range_pos (at_least_one_digit s)
    else in_range_pos (at_least_one_digit (c ∷ s))

unfoldable pub atoi : String → Option ℤ
unfolding atoi_codes
atoi s = atoi_codes (codes s)

-- The SCIM error payload, with the transport's status beside it.
pub record ScimError : Type 0 where
  pub schemas : List String
  pub status : String
  pub scim_type : String
  pub detail : String
  pub http_status : ℤ

abbrev or_zero : Option ℤ → ℤ
or_zero none = pos 0
or_zero (some n) = n

-- The numeric status, preferring the transport's.
unfoldable pub status_code : ScimError → ℤ
unfolding atoi
status_code e = if not (e.http_status ==ℤ pos 0) then e.http_status else or_zero (atoi e.status)

unfoldable pub conflict : ScimError → Bool
unfolding status_code
conflict e = status_code e ==ℤ pos 409

unfoldable pub credential : ScimError → Bool
unfolding status_code
credential e = status_code e ==ℤ pos 401 || status_code e ==ℤ pos 403

unfoldable pub is_not_found_status : ScimError → Bool
unfolding status_code
is_not_found_status e = status_code e ==ℤ pos 404

abbrev pub schema_error : String
schema_error = "urn:ietf:params:scim:api:messages:2.0:Error"

unfoldable pub looks_like_scim : ScimError → Bool
unfolding contains
looks_like_scim e =
    contains schema_error e.schemas
    || not (e.scim_type =ₛ "")
    || not (e.detail =ₛ "")
    || not (e.status =ₛ "")

-- `store.ErrNotFound`, `store.ErrAlreadyExists`, a `*scim.Error`, any other error with a text of its
-- own, and an error wrapped with a text in front.
pub data Error : Type 0 where
  not_found already_exists : Error
  scim : ScimError → Error
  message : String → Error
  wrap : String → Error → Error

-- `errors.Is(err, store.ErrNotFound)`
unfoldable pub is_not_found : Error → Bool
is_not_found not_found = true
is_not_found (wrap _ e) = is_not_found e
is_not_found _ = false

-- `errors.Is(err, store.ErrAlreadyExists)`
unfoldable pub is_already_exists : Error → Bool
is_already_exists already_exists = true
is_already_exists (wrap _ e) = is_already_exists e
is_already_exists _ = false

-- `errors.As(err, &scimErr)`
unfoldable pub as_scim : Error → Option ScimError
as_scim (scim e) = some e
as_scim (wrap _ e) = as_scim e
as_scim _ = none

abbrev conflict_of : Option ScimError → Bool
conflict_of none = false
conflict_of (some e) = conflict e

-- `errors.As(err, &scimErr) && scimErr.Conflict()`
unfoldable pub is_conflict : Error → Bool
unfolding as_scim conflict
is_conflict e = conflict_of (as_scim e)

abbrev credential_of : Option ScimError → Bool
credential_of none = false
credential_of (some e) = credential e

-- `errors.As(err, &scimErr) && scimErr.Credential()`
unfoldable pub is_credential : Error → Bool
unfolding as_scim credential
is_credential e = credential_of (as_scim e)
