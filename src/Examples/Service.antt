-- ===== src/Examples/Service.antt =====
-- A walk of the client over a network that refuses the first requests, and a cycle over it.
use helppi_scim_go.Prelude.{ℕ, ◌≤◌, String, true, some, List, [], ◌∷◌, pos, arith, map, length}
use helppi_scim_go.Exec.{Exec, Result, ok}
use helppi_scim_go.Scim.Types.{User, ListResponse, everything, schema_list, decodes}
use helppi_scim_go.Scim.Client.{Wire}
use helppi_scim_go.Scim.Pages.Runs.{Runs}
use helppi_scim_go.Scim.Service.{client_directory}
use helppi_scim_go.Scim.Service.Reading.{OnlyReads, WireReads, client-Runs}
use helppi_scim_go.Directory.Interface.{Directory, State}
use helppi_scim_go.Examples.Setup.{user}
use helppi_scim_go.Examples.Requests.{client, library, net}

abbrev staff : List User
staff =
    user "hlp_a" "" (some true) "ana@separador.app" 5000
    ∷ user "hlp_d" "" (some true) "davi@separador.app" 7000
    ∷ []

abbrev decode_staff : String → Result ListResponse
decode_staff text = ok (record {
  schemas = schema_list ∷ [];
  total_results = pos (length staff);
  start_index = pos 1;
  items_per_page = pos (length staff);
  resources = map decodes staff;
})

abbrev decode_user : String → Result User
decode_user text = ok (user "hlp_a" "900001" (some true) "ana@separador.app" 5000)

-- The network counts its requests, and only adds to the count.
abbrev counting : OnlyReads net
counting = record {
  Reads = λ n m. n ≤ m;
  Reads-refl = λ n. omega arith;
  Reads-trans = λ n m k p q. omega (arith, p, q);
  list_Reads = λ filter i size n. omega arith;
  sleep_Reads = λ d n. omega arith;
  backoff_Reads = λ k n. omega arith;
}

abbrev note : User → Exec (State (Wire ℕ) (List String)) (Unit {0})
note u w = (ok tt, record w { rest = u.id ∷ w.rest })

abbrev idle : State (Wire ℕ) (List String)
idle = record { dir = record { net = 0; next = 0 }; rest = [] }

abbrev service : Directory (Wire ℕ)
service = client_directory client library net decode_staff decode_user

client-Runs_example :
    Runs
      (WireReads client library net counting)
      note
      idle
      (service.list_users (List String) everything (pos 200) note idle).0
      (service.list_users (List String) everything (pos 200) note idle).1
client-Runs_example =
    client-Runs client library net counting decode_staff decode_user (List String) everything
      (pos 200) note idle
