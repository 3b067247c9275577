-- ===== src/Examples/Recovery.antt =====
-- A first cycle that a failed write-back ends, and the cycle after it.
use helppi_scim_go.Prelude.{String, true, false, none, some, List, [], ◌∷◌, ◌++◌, ◌≡◌, refl, ◌∙◌}
use helppi_scim_go.Exec.{Result, ok, err, message, is_conflict, wrap}
use helppi_scim_go.Scim.Types.{User}
use helppi_scim_go.Directory.Interface.{Directory, State}
use helppi_scim_go.Directory.Types.{Session}
use helppi_scim_go.Directory.Run.{DirectoryLaws}
use helppi_scim_go.Directory.Spec.{steps}
use helppi_scim_go.Directory.Apply.Refines.{account_at}
use helppi_scim_go.Directory.Walk.{visit, start}
use helppi_scim_go.Directory.Cycle.{incremental, begun}
use helppi_scim_go.Directory.Cycle.Incremental.{Fetched}
use helppi_scim_go.Directory.Cycle.Recovery.{after_cycle, incremental-recovers}
use helppi_scim_go.Store.Memory.Laws.{Valid}
use helppi_scim_go.Examples.Cycles.{program}
use helppi_scim_go.Examples.Setup.{
  people, user, worker, cold, base, laws, site, Patches, each-Run, next-Run,
}

-- The answer to a PATCH: the first one fails.
abbrev answer : User → String × String → Patches → Result User × Patches
answer u p [] = (err (message "timeout"), p ∷ [])
answer u p (q ∷ d) = (ok u, p ∷ q ∷ d)

abbrev flaky : Directory Patches
flaky = record site {
  patch_external_id =
      λ id external_id d. answer (user id external_id (some true) "" 0) (id, external_id) d;
}

unfoldable flaky_laws : DirectoryLaws flaky
flaky_laws = record {
  Reads = λ d e. e ≡ d;
  Reads-refl = λ d. refl;
  Reads-trans = λ d e f p q. q ∙ p;
  list_users_runs = λ X filter size fn w. each-Run fn people w;
}

abbrev failed_cycle : State Patches (Session Valid)
failed_cycle = after_cycle (worker false) base flaky laws flaky_laws cold

first_fails :
    (incremental (worker false) base flaky cold).1
    ≡ some (wrap "write back helpper_id for hlp_a" (message "timeout"))
unfolding program is_conflict
first_fails = refl

abbrev only_first : List User
only_first = user "hlp_a" "" (some true) "ana@separador.app" 5000 ∷ []

abbrev the_others : List User
the_others =
    user "hlp_b" "" none "bia@separador.app" 3000
    ∷ user "hlp_c" "" (some false) "cai@separador.app" 4000
    ∷ []

delivered_at_first : Fetched (worker false) base flaky laws flaky_laws cold only_first
unfolding program each-Run next-Run flaky_laws is_conflict
delivered_at_first =
    (each-Run (visit (worker false) base flaky none) people
      (record { dir = []; rest = start (begun (worker false) base flaky cold).1.rest tt })).1

delivered_again :
    Fetched (worker false) base flaky laws flaky_laws failed_cycle (only_first ++ the_others)
unfolding program each-Run next-Run flaky_laws is_conflict
delivered_again =
    (each-Run (visit (worker false) base flaky none) people (record {
      dir = failed_cycle.dir;
      rest = start (begun (worker false) base flaky failed_cycle).1.rest tt;
    })).1

second_succeeds : (incremental (worker false) base flaky failed_cycle).1 ≡ none
unfolding program is_conflict
second_succeeds = refl

incremental-recovers_example :
    account_at
      (worker false)
      base
      flaky
      laws
      (after_cycle (worker false) base flaky laws flaky_laws failed_cycle)
      "hlp_a"
    ≡ steps
        (only_first ++ the_others)
        "hlp_a"
        (account_at (worker false) base flaky laws cold "hlp_a")
incremental-recovers_example =
    incremental-recovers (worker false) base flaky laws flaky_laws cold only_first the_others
      "hlp_a" refl delivered_at_first delivered_again second_succeeds
