-- ===== src/Directory/Apply/Usable.antt =====
-- Which records `apply` refuses as unusable.
use helppi_scim_go.Prelude.{◌=ₛ◌, Bool, not, ◌≡◌, arith}
use helppi_scim_go.Exec.{Result, ok, err}
use helppi_scim_go.Scim.Types.{User}
use helppi_scim_go.Store.Types.{Store}
use helppi_scim_go.Directory.Types.{Syncer, Session, Before}
use helppi_scim_go.Directory.Interface.{Directory, State}
use helppi_scim_go.Directory.Apply.{apply, looked_up, validate}

abbrev pub usable : User → Bool
usable u = validate u =ₛ ""

abbrev pub Judged : User → Result Before → Type 0
Judged u (ok r) = r.malformed ≡ not (usable u)
Judged u (err e) = Unit

module _ {D T : Type 0} (syncer : Syncer) (st : Store T) (dir : Directory D) where
  -- A record is reported as malformed exactly when `validate` gives a reason.
  pub malformed-apply : (u : User) (w : State D (Session T)) → Judged u (apply syncer st dir u w).0
  unfolding apply looked_up
  malformed-apply u w = ground arith
