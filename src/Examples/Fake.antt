-- ===== src/Examples/Fake.antt =====
-- Requests to the fake directory with three records.
use helppi_scim_go.Prelude.{
  String, ◌=ₛ◌, true, false, none, some, List, [], ◌∷◌, ◌≡◌, refl, eq_iff, map, pos, contains, ◌+ₛ◌,
  arith,
}
use helppi_scim_go.Exec.{Exec, ok}
use helppi_scim_go.Scim.Types.{User, new_external_id_patch}
use helppi_scim_go.Directory.Interface.{State}
use helppi_scim_go.Scim.Pages.{list_users}
use helppi_scim_go.Scim.Pages.Delivery.{for_each, Distinct}
use helppi_scim_go.FakeDirectory.State.{start, lookup, bindings, without}
use helppi_scim_go.FakeDirectory.Answers.{Call, served, matched}
use helppi_scim_go.FakeDirectory.Handler.{token}
use helppi_scim_go.FakeDirectory.Unshared.{AreUnshared, handled, handled-AreUnshared}
use helppi_scim_go.FakeDirectory.Listing.{pages_of, list_users-matched}
use helppi_scim_go.Examples.Setup.{user}

abbrev records : List User
records =
    user "hlp_a" "helpper_1" (some true) "ana@separador.app" 5000
    ∷ user "hlp_b" "" (some true) "bia@separador.app" 3000
    ∷ user "hlp_c" "helpper_3" (some false) "cai@separador.app" 4000
    ∷ []

abbrev write_of : String → String → Call
write_of id value = record {
  method = "PATCH";
  path = "/Users/" +ₛ id;
  authorization = "Bearer " +ₛ token;
  start_index = pos 0;
  count = pos 0;
  since = 0;
  body = some (new_external_id_patch value);
}

-- The second write gives an external id to another identity.
abbrev two_writes : List Call
two_writes = write_of "hlp_b" "helpper_2" ∷ write_of "hlp_c" "helpper_2" ∷ []

other {ℓ} : {A : Type ℓ} (s t : String) → s ≡ t → (s =ₛ t) ≡ false → A
other s t e h = ground (arith, eq_iff s t)

records-AreUnshared : AreUnshared records
records-AreUnshared = (
  ((λ n e. other "helpper_1" "" e refl), ((λ n e. other "helpper_1" "helpper_3" e refl), tt)),
  (((λ n e. other "" "helpper_3" e refl), tt), (tt, tt)),
)

handled-AreUnshared_example : AreUnshared (handled two_writes (start records)).users
handled-AreUnshared_example = handled-AreUnshared records two_writes records-AreUnshared

nobody_owns : lookup "helpper_2" (start records).bound ≡ none
unfolding lookup start bindings without
nobody_owns = refl

abbrev note : User → Exec (State (Unit {0}) (List String)) (Unit {0})
note u w = (ok tt, record w { rest = u.id ∷ w.rest })

abbrev idle : State (Unit {0}) (List String)
idle = record { dir = tt; rest = [] }

served-Distinct : Distinct (map served (matched 3500 (start records).users))
unfolding matched start contains
served-Distinct = (refl, (refl, tt))

list_users-matched_example :
    list_users (pages_of (start records) 3500 1) (pos 1) note idle
    ≡ for_each note (map served (matched 3500 (start records).users)) idle
unfolding start
list_users-matched_example =
    list_users-matched note (start records) 3500 0 refl served-Distinct idle
