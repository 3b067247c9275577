-- ===== src/Scim/Http.antt =====
-- scim/client.go, lines 339 to 367, and scim/errors.go, lines 64 to 95: what the client makes of one
-- answer, and how long it waits. Requests are data in place of their URLs and encoded bodies.
pub mod Waits
use helppi_scim_go.Prelude.{
  ℕ, suc, zero, ◌+◌, ◌*◌, ◌-◌, ◌^◌, ◌/◌, ◌%◌, String, ◌+ₛ◌, ◌=ₛ◌, Bool, true, false, not, ◌&&◌,
  ◌||◌, Option, none, some, List, [], ltb, leb, if◌then◌else◌, ℤ, pos, negsuc, ltb_ℤ, leb_ℤ, ◌-ℤ◌,
}
use helppi_scim_go.Exec.{Result, ok, err, Error, ScimError, atoi, looks_like_scim}
use helppi_scim_go.Scim.Types.{Time, Filter, PatchOp}

-- The four requests of the client.
pub data Request : Type 0 where
  list_page : Filter → ℕ → ℕ → Request
  get_record : String → Request
  patch_record : String → PatchOp → Request
  provider_config_of : Request

-- An answer: the status, two headers ("" where absent), and what reading the body returns.
pub record Response : Type 0 where
  pub status : ℕ
  pub content_type : String
  pub retry_after_header : String
  pub body : Result String

-- What `http.Client.Do` returns.
pub data Reply : Type 0 where
  unreachable : Error → Reply
  response : Response → Reply

-- The functions of Go's standard library that the client calls.
pub record Library : Type 0 where
  -- `json.Unmarshal` into an `Error`
  pub parse_scim_error : String → Option ScimError
  -- `http.ParseTime`
  pub parse_time : String → Option Time
  -- `strings.TrimSpace`
  pub trim_space : String → String
  -- `strings.Contains(strings.ToLower(ct), "json")`
  pub names_json : String → Bool

-- The first characters of a text: its first bytes, if it is ASCII.
unfoldable pub prefix : ℕ → String → String
prefix zero s = ""
prefix (suc n) String.[] = ""
prefix (suc n) (String.◌∷◌ c s) = String.◌∷◌ c (prefix n s)

unfoldable pub is_longer : String → ℕ → Bool
is_longer String.[] n = false
is_longer (String.◌∷◌ c s) zero = true
is_longer (String.◌∷◌ c s) (suc n) = is_longer s n

unfoldable pub truncate : String → ℕ → String
unfolding prefix is_longer
truncate s max = if is_longer s max then prefix max s +ₛ "…" else s

abbrev pub bare : ℕ → ScimError
bare status = record {
  schemas = [];
  status = "";
  scim_type = "";
  detail = "";
  http_status = pos status;
}

module _ (lib : Library) where
  -- `decodeError`, on what was parsed of a body.
  unfoldable pub parsed_error : ℕ → String → Option ScimError → ScimError
  unfolding truncate looks_like_scim
  parsed_error status body none = record (bare status) {
    detail = truncate (lib.trim_space body) 512;
  }
  parsed_error status body (some e) =
      if looks_like_scim e
      then record e { http_status = pos status }
      else record (bare status) { detail = truncate (lib.trim_space body) 512 }

  unfoldable pub body_error : ℕ → Result String → ScimError
  unfolding parsed_error prefix
  body_error status (err e) = bare status
  body_error status (ok text) =
      let body = prefix (2 ^ 20) text in
      if body =ₛ "" then bare status else parsed_error status body (lib.parse_scim_error body)

  unfoldable pub decode_error : Response → ScimError
  unfolding body_error
  decode_error r = body_error r.status r.body

-- A number modulo 2 ^ 64, as a 64-bit signed integer.
unfoldable pub int64 : ℕ → ℤ
int64 n = let r = n % 2 ^ 64 in if ltb r (2 ^ 63) then pos r else negsuc (2 ^ 64 - 1 - r)

abbrev pub second : ℕ
second = 1000000000

-- `time.Until` of an instant, from the clock's reading.
abbrev until_or_zero : ℤ → ℤ
until_or_zero d = if ltb_ℤ (pos 0) d then d else pos 0

abbrev after_date : Time → Option Time → ℤ × Bool
after_date now none = (pos 0, false)
after_date now (some t) = (until_or_zero (pos t -ℤ pos now), true)

abbrev after_number : Time → Option Time → Option ℤ → ℤ × Bool
after_number now date (some (pos n)) = (int64 (n * second), true)
after_number now date _ = after_date now date

-- `retryAfter`; the clock's reading is used for the form with a date.
unfoldable pub retry_after : Library → Time → Response → ℤ × Bool
unfolding int64 atoi ◌-ℤ◌
retry_after lib now r =
    if r.retry_after_header =ₛ ""
    then (pos 0, false)
    else after_number now (lib.parse_time r.retry_after_header) (atoi r.retry_after_header)

-- `defaultBackoff`: `random n` stands for `rand.Int64N`, which panics where its bound is not positive;
-- `none` is that panic.
abbrev pub capped : ℤ → ℤ
capped d = if ltb_ℤ (pos (30 * second)) d then pos (30 * second) else d

abbrev pub jittered : (ℕ → ℕ) → ℤ → Option ℤ
jittered random (pos d) = some (pos (d / 2 + random (d / 2 + 1)))
jittered random (negsuc zero) = some (pos (random 1))
jittered random (negsuc (suc n)) = none

-- The exponential delay: `1 << attempt` in 64 bits, times half a second in 64 bits.
unfoldable pub exponential : ℕ → ℤ
unfolding int64
exponential attempt = int64 (2 ^ attempt % 2 ^ 64 * 500000000)

unfoldable pub default_backoff : (ℕ → ℕ) → ℕ → Option ℤ
unfolding exponential
default_backoff random attempt = jittered random (capped (exponential attempt))
