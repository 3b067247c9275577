-- ===== src/Examples/Listings.antt =====
-- The theorems on the pages of a listing, with a server that cuts a fixed list into pages.
use helppi_scim_go.Prelude.{
  ◌≡◌, refl, ℕ, suc, ◌-◌, ◌+◌, ap, arith, contains, String, List, [], ◌∷◌, map, pos, take, drop,
}
use helppi_scim_go.Exec.{Exec, ok}
use helppi_scim_go.Scim.Types.{User, ListResponse, decodes, schema_list}
use helppi_scim_go.Directory.Interface.{State}
use helppi_scim_go.Scim.Pages.{pages_from, needed, first_page, list_users}
use helppi_scim_go.Scim.Pages.Termination.{Ended, pages_from-Ended}
use helppi_scim_go.Scim.Pages.Delivery.{for_each, sheet, Distinct}
use helppi_scim_go.Scim.Pages.Delivery.Loop.{list_users-for_each}
use helppi_scim_go.Examples.Setup.{people}

-- The ids of the records handled, newest first.
abbrev Log : Type 0
Log = List String

-- A server that answers every request with one record of the list, and counts the requests.
abbrev one_by_one : ℕ → Exec ℕ ListResponse
one_by_one start n = (
  ok (record {
    schemas = schema_list ∷ [];
    total_results = pos 3;
    start_index = pos start;
    items_per_page = pos 1;
    resources = map decodes (take 1 (drop (start - 1) people));
  }),
  suc n,
)

abbrev note : User → Exec (State ℕ Log) (Unit {0})
note u w = (ok tt, record w { rest = u.id ∷ w.rest })

abbrev idle : State ℕ Log
idle = record { dir = 0; rest = [] }

pages_from-Ended_example :
    Ended (pages_from note one_by_one 1 (needed 1 (one_by_one 1 0).0) first_page idle)
pages_from-Ended_example = pages_from-Ended note one_by_one 1 idle

-- A server that cuts the list into pages of two.
abbrev in_pairs : ℕ → Exec ℕ ListResponse
in_pairs start n = (ok (sheet people 2 (start - 1)), n)

in_pairs_lem : (k n : ℕ) → in_pairs (k + 1) n ≡ (ok (sheet people 2 k), n)
in_pairs_lem k n =
    let same : k + 1 - 1 ≡ k = omega arith in ap (λ (j : ℕ). (ok (sheet people 2 j), n)) same

people-Distinct : Distinct people
unfolding contains
people-Distinct = (refl, (refl, (refl, tt)))

list_users-for_each_example : list_users in_pairs (pos 2) note idle ≡ for_each note people idle
list_users-for_each_example =
    list_users-for_each note people people-Distinct 1 in_pairs in_pairs_lem idle
