-- ===== src/Examples/Setup.antt =====
-- A directory that serves a fixed list of records and accepts every PATCH, three records, and a syncer.
use helppi_scim_go.Prelude.{
  ℕ, String, Bool, true, false, Option, none, some, List, [], ◌∷◌, ◌++◌, ◌≡◌, refl, pos, ◌∙◌,
}
use helppi_scim_go.Exec.{Exec, Result, ok, err}
use helppi_scim_go.Scim.Types.{User, Time}
use helppi_scim_go.Store.Memory.{empty}
use helppi_scim_go.Store.Memory.Valid.{empty-IsValid}
use helppi_scim_go.Store.Types.{Store}
use helppi_scim_go.Store.Laws.{StoreLaws, KeepsForward}
use helppi_scim_go.Store.Memory.Laws.{Valid, valid_store, memory-StoreLaws}
use helppi_scim_go.Directory.Types.{Syncer, Session, no_stats}
use helppi_scim_go.Directory.Interface.{Directory, State}
use helppi_scim_go.Directory.Run.{Run, stops, aborts, calls, DirectoryLaws}

-- The accepted write-backs, newest last.
abbrev pub Patches : Type 0
Patches = List (String × String)

abbrev pub user : String → String → Option Bool → String → Time → User
user id external_id active login at = record {
  schemas = [];
  id = id;
  external_id = external_id;
  user_name = login;
  display_name = login;
  name = record { given_name = ""; family_name = "" };
  emails = [];
  active = active;
  meta = record { resource_type = "User"; created = 1; last_modified = at };
}

module _ {D X : Type 0} (fn : User → Exec (State D X) (Unit {0})) where
  unfoldable pub each : List User → Exec (State D X) (Unit {0})
  each [] w = (ok tt, w)
  each (u ∷ us) w = let (r, w') = fn u w in elim r [ ok _ ↦ each us w' | err e ↦ (err e, w') ]

  abbrev pub Same : D → D → Type 0
  Same d e = e ≡ d

  unfoldable pub after : List User → Result (Unit {0}) → State D X → Result (Unit {0}) × State D X
  after us r w = elim r [ ok _ ↦ each us w | err e ↦ (err e, w) ]

  unfoldable pub next-Run :
      (u : User) (us : List User) (w : State D X) (r : Result (Unit {0})) (w' : State D X)
      → fn u w ≡ (r, w')
      → ((vs : List User) × Run Same fn vs w' (each us w').0 (each us w').1)
      → (vs : List User) × Run Same fn vs w (after us r w').0 (after us r w').1
  unfolding after
  next-Run u us w (ok x) w' e (vs, run) =
      (u ∷ vs, calls w w u vs w' (each us w').0 (each us w').1 (refl, refl) e run)
  next-Run u us w (err x) w' e rest = (u ∷ [], aborts w w u x w' (refl, refl) e)

  unfoldable pub each-Run :
      (us : List User) (w : State D X)
      → (vs : List User) × Run Same fn vs w (each us w).0 (each us w).1
  unfolding each after
  each-Run [] w = ([], stops w w (ok tt) (refl, refl))
  each-Run (u ∷ us) w = let (r, w') = fn u w in next-Run u us w r w' refl (each-Run us w')

abbrev pub serving : List User → Directory Patches
serving users = record {
  list_users = λ X filter size fn. each fn users;
  patch_external_id =
      λ id external_id d. (ok (user id external_id (some true) "" 0), d ++ (id, external_id) ∷ []);
}

unfoldable pub serving-DirectoryLaws : (users : List User) → DirectoryLaws (serving users)
serving-DirectoryLaws users = record {
  Reads = λ d e. e ≡ d;
  Reads-refl = λ d. refl;
  Reads-trans = λ d e f p q. q ∙ p;
  list_users_runs = λ X filter size fn w. each-Run fn users w;
}

-- An active person, one without the active flag, and one who is inactive and unknown.
abbrev pub people : List User
people =
    user "hlp_a" "" (some true) "ana@separador.app" 5000
    ∷ user "hlp_b" "" none "bia@separador.app" 3000
    ∷ user "hlp_c" "" (some false) "cai@separador.app" 4000
    ∷ []

abbrev pub clock : ℕ → Time
clock _ = 9000

abbrev pub worker : Bool → Syncer
worker dry = record {
  page_size = pos 200;
  overlap = pos 1000;
  max_malformed = pos 25;
  future_skew = pos 100;
  dry_run = dry;
  clock = clock;
}

abbrev pub cold : State Patches (Session Valid)
cold = record {
  dir = [];
  rest = record {
    store = (empty, empty-IsValid);
    readings = 0;
    alerted = [];
    alerts = [];
    stats = no_stats;
  };
}

abbrev pub base : Store Valid
base = valid_store clock

abbrev pub laws : StoreLaws base
laws = memory-StoreLaws clock

pub keeps_forward : KeepsForward base laws
unfolding memory-StoreLaws
keeps_forward t at h = h

abbrev pub site : Directory Patches
site = serving people

abbrev pub site_laws : DirectoryLaws site
site_laws = serving-DirectoryLaws people
