-- ===== src/Examples/Connection.antt =====
-- A connection to a database in memory, with its transactions and advisory locks, and two embedded migrations.
use helppi_scim_go.Prelude.{
  ◌+◌, ◌-◌, String, ◌=ₛ◌, true, [], ◌∷◌, ◌++◌, refl, Bool-cases, inl, inr, contains, if◌then◌else◌,
}
use helppi_scim_go.Exec.{Result, ok, err, message}
use helppi_scim_go.Store.Postgres.Backend.{
  Backend, Embedded, BackendLaws, Adds, ran, recorded, View, versions, without,
}

abbrev pub migrations : Embedded
migrations = record {
  glob = ok ("migrations/0002_more.sql" ∷ "migrations/0001_init.sql" ∷ []);
  read_file = λ f. ok f;
}

-- A text that the database refuses.
abbrev refused : String
refused = "migrations/0009_bad.sql"

abbrev pub broken_migrations : Embedded
broken_migrations = record {
  glob = ok (refused ∷ "migrations/0001_init.sql" ∷ []);
  read_file = λ f. ok f;
}

abbrev pub idle : View
idle = record { log = []; pending = []; held = []; out = 0 }

abbrev ran_or_refused : String → View → Result (Unit {0}) × View
ran_or_refused body v =
    if body =ₛ refused
    then (err (message "syntax error"), v)
    else (ok tt, record v { pending = v.pending ++ ran body ∷ [] })

-- A lock that this session has not taken is free.
unfoldable pub connection : Backend View
unfolding versions without contains
connection = record {
  acquire = λ v. (ok tt, record v { out = v.out + 1 });
  release = λ v. record v { out = v.out - 1 };
  take_lock = λ k v. (ok tt, record v { held = k ∷ v.held });
  try_lock = λ k v. (ok true, record v { held = k ∷ v.held });
  unlock = λ k v. record v { held = without k v.held };
  create_versions = λ v. (ok tt, v);
  is_applied = λ f v. (ok (contains f (versions v.log)), v);
  begin = λ v. (ok tt, record v { pending = [] });
  exec_body = ran_or_refused;
  record_version = λ f v. (ok tt, record v { pending = v.pending ++ recorded f ∷ [] });
  rollback = λ v. record v { pending = [] };
  commit = λ v. (ok tt, record v { log = v.log ++ v.pending; pending = [] });
}

pub run_or_refuse :
    (body : String) (v : View)
    → Adds v (ran body ∷ []) (ran_or_refused body v).1 (ran_or_refused body v).0
run_or_refuse body v = elim (Bool-cases (body =ₛ refused)) [
  | inl bad ↦ rw bad (v.pending, refl)
  | inr good ↦ rw good refl
]

unfoldable pub connection-BackendLaws : BackendLaws connection
unfolding connection
connection-BackendLaws = record {
  seen = λ v. v;
  acquire = λ v. refl;
  release = λ v. refl;
  take_lock = λ k v. refl;
  try_lock = λ k v. refl;
  frees = λ k v. true;
  unlock = λ k v. refl;
  create_versions = λ v. refl;
  is_applied = λ f v. (refl, refl);
  begin = λ v. refl;
  exec_body = run_or_refuse;
  record_version = λ f v. refl;
  rollback = λ v. refl;
  commit = λ v. refl;
}
