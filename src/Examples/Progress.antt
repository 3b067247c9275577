-- ===== src/Examples/Progress.antt =====
-- A cycle over two usable records, which brings the checkpoint to the newer of them.
use helppi_scim_go.Prelude.{true, false, none, some, List, [], ◌∷◌, ◌≡◌, refl, All, arith, ◌+ℤ◌}
use helppi_scim_go.Scim.Types.{User}
use helppi_scim_go.Directory.Interface.{Directory}
use helppi_scim_go.Directory.Run.{DirectoryLaws}
use helppi_scim_go.Directory.Walk.{visit, start}
use helppi_scim_go.Directory.Walk.Watermark.{CoveredBy, IsQuiet}
use helppi_scim_go.Directory.Apply.{validate}
use helppi_scim_go.Directory.Cycle.{incremental, begun}
use helppi_scim_go.Directory.Cycle.Incremental.{Fetched}
use helppi_scim_go.Directory.Cycle.Progress.{IsDue, IsStored, incremental-advances}
use helppi_scim_go.Examples.Cycles.{program}
use helppi_scim_go.Examples.Setup.{
  user, worker, cold, base, laws, Patches, serving, serving-DirectoryLaws, each-Run, next-Run,
}

abbrev staff : List User
staff =
    user "hlp_a" "" (some true) "ana@separador.app" 5000
    ∷ user "hlp_d" "" (some true) "davi@separador.app" 7000
    ∷ []

abbrev office : Directory Patches
office = serving staff

abbrev office_laws : DirectoryLaws office
office_laws = serving-DirectoryLaws staff

office_cycle : (incremental (worker false) base office cold).1 ≡ none
unfolding program
office_cycle = refl

office_checkpoint : (incremental (worker false) base office cold).0.checkpoint ≡ 7000
unfolding program
office_checkpoint = refl

office_delivered : Fetched (worker false) base office laws office_laws cold staff
unfolding program each-Run next-Run serving-DirectoryLaws
office_delivered =
    (each-Run (visit (worker false) base office none) staff
      (record { dir = []; rest = start (begun (worker false) base office cold).1.rest tt })).1

staff-IsQuiet : All IsQuiet staff
unfolding validate
staff-IsQuiet = ((λ bad. absurd (ground (arith, bad))), ((λ bad. absurd (ground (arith, bad))), tt))

staff-IsDue : All (λ u. IsDue (worker false) u.last_modified) staff
unfolding ◌+ℤ◌
staff-IsDue = ((λ n. ground arith), ((λ n. ground arith), tt))

incremental-advances_example :
    let (stats, _, w') = incremental (worker false) base office cold in
    All (CoveredBy stats.checkpoint) staff
    × IsStored (worker false) base office laws office_laws stats.checkpoint w'
incremental-advances_example =
    incremental-advances (worker false) base office laws office_laws cold staff refl
      office_delivered office_cycle staff-IsQuiet staff-IsDue
