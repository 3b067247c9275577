-- ===== src/FakeDirectory/Handler.antt =====
-- scimtest/scimtest.go, lines 161 to 209: the injected failures, the credential and the routes.
use helppi_scim_go.Prelude.{
  ◌+◌, String, ◌=ₛ◌, ◌+ₛ◌, true, not, ◌&&◌, Option, none, some, List, [], ◌∷◌, if◌then◌else◌, pos,
}
use helppi_scim_go.Scim.Types.{ProviderConfig}
use helppi_scim_go.FakeDirectory.State.{Directory, Fault, RawResponse}
use helppi_scim_go.FakeDirectory.Answers.{
  Call, Reply, config, raw, write_json, write_error, list, get,
}
use helppi_scim_go.FakeDirectory.Writes.{patch}

abbrev pub token : String
token = "scim_test_0000000000"

-- `strings.CutPrefix`
unfoldable pub cut_prefix : String → String → Option String
cut_prefix s String.[] = some s
cut_prefix String.[] (String.◌∷◌ c p) = none
cut_prefix (String.◌∷◌ a s) (String.◌∷◌ c p) =
    if String.◌∷◌ a "" =ₛ String.◌∷◌ c "" then cut_prefix s p else none

abbrev pub trim_prefix : String → String → String
trim_prefix s p = elim (cut_prefix s p) [ none ↦ s | some rest ↦ rest ]

abbrev pub all_supported : ProviderConfig
all_supported = record {
  schemas = [];
  patch_supported = true;
  filter_supported = true;
  filter_max_results = pos 500;
}

abbrev forbidden : Reply
forbidden =
    write_error 403 "mutability"
      "this partner may only read; the sole writable attribute is externalId"

-- A request on one record.
abbrev pub on_user : Option String → Call → Directory → Reply × Directory
on_user none c d = (forbidden, d)
on_user (some id) c d =
    if c.method =ₛ "GET"
    then (get id d, d)
    else if c.method =ₛ "PATCH"
    then patch id c d
    else (forbidden, d)

-- `handle`, once the credential is accepted.
unfoldable pub routed : String → Call → Directory → Reply × Directory
unfolding cut_prefix list get patch
routed path c d =
    if c.method =ₛ "GET" && path =ₛ "Users"
    then (list c d, d)
    else if c.method =ₛ "GET" && path =ₛ "ServiceProviderConfig"
    then (write_json 200 (config all_supported), d)
    else on_user (cut_prefix path "Users/") c d

unfoldable pub authorized : Call → Directory → Reply × Directory
unfolding routed
authorized c d =
    if not (c.authorization =ₛ "Bearer " +ₛ token)
    then (write_error 401 "" "invalid credential", d)
    else routed (trim_prefix c.path "/") c d

abbrev next_fault : List Fault → Option Fault × List Fault
next_fault [] = (none, [])
next_fault (f ∷ fs) = (some f, fs)

abbrev next_raw : List RawResponse → Option RawResponse × List RawResponse
next_raw [] = (none, [])
next_raw (r ∷ rs) = (some r, rs)

abbrev injected : Option RawResponse → Option Fault → Option Reply
injected (some r) f = some (record {
  status = r.status;
  content_type = r.content_type;
  retry_after = "";
  body = raw r.body;
})
injected none (some f) =
    some (record (write_error f.status "" "synthetic failure") { retry_after = f.retry_after })
injected none none = none

abbrev pub served_or : Option Reply → Call → Directory → Reply × Directory
served_or (some r) c d = (r, d)
served_or none c d = authorized c d

-- The directory once a request has been counted and its injected failures taken off the queues.
abbrev pub counted : Directory → Directory
counted d = record d {
  requests = d.requests + 1;
  faults = (next_fault d.faults).1;
  raws = (next_raw d.raws).1;
}

unfoldable pub handle : Call → Directory → Reply × Directory
unfolding authorized
handle c d = served_or (injected (next_raw d.raws).0 (next_fault d.faults).0) c (counted d)
