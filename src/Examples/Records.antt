-- ===== src/Examples/Records.antt =====
-- The theorems on one record and on one walk at the records of the set-up.
use helppi_scim_go.Prelude.{
  true, false, none, some, ◌≡◌, refl, itoa, contains, ◌+ℤ◌, List, [], ◌∷◌, All, arith,
}
use helppi_scim_go.Exec.{ok, is_not_found}
use helppi_scim_go.Scim.Types.{primary_email, User, everything}
use helppi_scim_go.Store.Memory.{
  helpper_by_directory_id, create_helpper, checkpoint, set_checkpoint,
}
use helppi_scim_go.Store.Memory.Laws.{memory-StoreLaws}
use helppi_scim_go.Directory.Spec.{step}
use helppi_scim_go.Directory.Apply.{
  validate, looked_up, apply, write_back, ensure_helpper, sync_state, repair,
}
use helppi_scim_go.Directory.Apply.Replay.{SameBase, apply-again}
use helppi_scim_go.Directory.Apply.Refines.{account_at, Outcome, apply-Outcome}
use helppi_scim_go.Directory.Walk.{visit, walk_with, start, Delivered}
use helppi_scim_go.Directory.Walk.Counters.{Tallied, walk_with-Tallied}
use helppi_scim_go.Directory.Walk.Watermark.{walk_with-Issued, Issued, IsQuiet}
use helppi_scim_go.Examples.Setup.{
  serving, serving-DirectoryLaws, people, user, worker, cold, each, each-Run, next-Run, base, laws,
  site, site_laws,
}

abbrev ana : User
ana = user "hlp_a" "" (some true) "ana@separador.app" 5000

-- Two records that hold nothing back.
abbrev staff : List User
staff = ana ∷ user "hlp_d" "" (some true) "davi@separador.app" 7000 ∷ []

apply-Outcome_example :
    let (r, w') = apply (worker false) base site ana cold in
    Outcome
      (account_at (worker false) base site laws cold "hlp_a")
      (step ana "hlp_a" (account_at (worker false) base site laws cold "hlp_a"))
      (account_at (worker false) base site laws w' "hlp_a")
      r
apply-Outcome_example = apply-Outcome (worker false) base site laws ana cold "hlp_a" refl

first_apply :
    (apply (worker false) base site ana cold).0
    ≡ ok (record {
      existed = false;
      enabled_before = false;
      active_now = true;
      external_id_before = "";
      malformed = false;
    })
unfolding apply validate looked_up write_back ensure_helpper helpper_by_directory_id create_helpper
    is_not_found primary_email itoa contains memory-StoreLaws
first_apply = refl

apply-again_example :
    SameBase
      (worker false)
      base
      site
      laws
      "hlp_a"
      (apply (worker false) base site ana cold).1
      (apply (worker false) base site ana (apply (worker false) base site ana cold).1).1
apply-again_example = apply-again (worker false) base site laws ana cold "hlp_a" refl _ first_apply

-- What a walk of the program unfolds.
program : Unit {0}
unfolding walk_with visit apply validate looked_up write_back ensure_helpper sync_state repair
    helpper_by_directory_id create_helpper checkpoint set_checkpoint is_not_found each primary_email
    itoa contains ◌+ℤ◌ memory-StoreLaws
program = tt

people_watermark :
    (walk_with {O = Unit {0}} (worker false) base site none everything tt cold).0 ≡ ok 3000
unfolding program
people_watermark = refl

delivered :
    Delivered {O = Unit {0}} (worker false) base site none site_laws everything tt cold people
unfolding program each-Run next-Run serving-DirectoryLaws
delivered =
    (each-Run (visit {O = Unit {0}} (worker false) base site none) people
      (record { dir = []; rest = start cold.rest tt })).1

walk_with-Tallied_example :
    Tallied
      (worker false).max_malformed
      people
      (walk_with {O = Unit {0}} (worker false) base site none everything tt cold).2.rest.stats
walk_with-Tallied_example =
    walk_with-Tallied {O = Unit {0}} (worker false) base site laws none site_laws everything tt cold
      3000 people delivered people_watermark

walk_with-Issued_example : Issued 3000 people
walk_with-Issued_example =
    walk_with-Issued {O = Unit {0}} (worker false) base site none site_laws everything tt cold 3000
      people delivered people_watermark

staff_watermark :
    (walk_with {O = Unit {0}} (worker false) base (serving staff) none everything tt cold).0
    ≡ ok 7000
unfolding program
staff_watermark = refl

staff-Delivered :
    Delivered {O = Unit {0}}
      (worker false)
      base
      (serving staff)
      none
      (serving-DirectoryLaws staff)
      everything
      tt
      cold
      staff
unfolding program each-Run next-Run serving-DirectoryLaws
staff-Delivered =
    (each-Run (visit {O = Unit {0}} (worker false) base (serving staff) none) staff
      (record { dir = []; rest = start cold.rest tt })).1

staff-IsQuiet : All IsQuiet staff
unfolding validate
staff-IsQuiet = ((λ h. absurd (ground arith)), ((λ h. absurd (ground arith)), tt))
