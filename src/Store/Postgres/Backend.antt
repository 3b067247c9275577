-- ===== src/Store/Postgres/Backend.antt =====
-- What store/postgres/migrate.go and store/postgres/lock.go rely on in a connection to PostgreSQL: transactions and
-- advisory locks. The files that migrate.go embeds are a parameter too.
use helppi_scim_go.Prelude.{
  ℕ, ◌+◌, ◌-◌, ◌==◌, String, Bool, true, false, List, [], ◌∷◌, ◌++◌, ◌≡◌, ◌⊎◌, inl, inr, ap, ◌∙◌,
  contains, if◌then◌else◌,
}
use helppi_scim_go.Exec.{Exec, Result, ok, err}

-- Calls on a connection; those that return no result are the ones whose error the code drops.
pub record Backend (D : Type 0) : Type 0 where
  pub acquire : Exec D (Unit {0})
  pub release : D → D
  -- select pg_advisory_lock, pg_try_advisory_lock, pg_advisory_unlock
  pub take_lock : ℕ → Exec D (Unit {0})
  pub try_lock : ℕ → Exec D Bool
  pub unlock : ℕ → D → D
  -- create table if not exists schema_migrations
  pub create_versions : Exec D (Unit {0})
  -- select exists (select 1 from schema_migrations where version = $1)
  pub is_applied : String → Exec D Bool
  pub begin : Exec D (Unit {0})
  pub exec_body : String → Exec D (Unit {0})
  -- insert into schema_migrations (version) values ($1)
  pub record_version : String → Exec D (Unit {0})
  pub rollback : D → D
  pub commit : Exec D (Unit {0})

-- The embedded files: `fs.Glob` and `ReadFile`.
pub record Embedded : Type 0 where
  pub glob : Result (List String)
  pub read_file : String → Result String

-- What was committed: a migration's text was run, or its version recorded.
pub data Entry : Type 0 where
  ran recorded : String → Entry

-- The versions recorded.
unfoldable pub versions : List Entry → List String
versions [] = []
versions (ran body ∷ l) = versions l
versions (recorded v ∷ l) = v ∷ versions l

-- What a session sees of the database and of itself.
pub record View : Type 0 where
  pub log : List Entry
  -- What its open transaction did so far.
  pub pending : List Entry
  -- The advisory locks that it holds, once for each time it took them.
  pub held : List ℕ
  -- The connections that it has out of the pool.
  pub out : ℕ

unfoldable pub without : ℕ → List ℕ → List ℕ
without k [] = []
without k (j ∷ js) = if j == k then js else j ∷ without k js

-- A call that changes the view if it succeeds, and else nothing.
abbrev pub Changes {ℓ} : {A : Type ℓ} → View → View → View → Result A → Type 0
Changes v good v' (ok _) = v' ≡ good
Changes v good v' (err e) = v' ≡ v

-- A call within a transaction: one that fails leaves the transaction in any state.
abbrev pub Adds : View → List Entry → View → Result (Unit {0}) → Type 0
Adds v es v' (ok _) = v' ≡ record v { pending = v.pending ++ es }
Adds v es v' (err e) = (q : List Entry) × (v' ≡ record v { pending = q })

abbrev pub Commits : View → View → Result (Unit {0}) → Type 0
Commits v v' (ok _) = v' ≡ record v { log = v.log ++ v.pending; pending = [] }
Commits v v' (err e) = (q : List Entry) × (v' ≡ record v { pending = q })

abbrev pub Tells : Bool → Result Bool → Type 0
Tells b (ok c) = c ≡ b
Tells b (err e) = Unit

-- A lock that was asked for: taken where the answer is true.
abbrev pub Tries : ℕ → View → View → Result Bool → Type 0
Tries k v v' (ok true) = v' ≡ record v { held = k ∷ v.held }
Tries k v v' (ok false) = v' ≡ v
Tries k v v' (err e) = v' ≡ v

pub record BackendLaws {D : Type 0} (back : Backend D) : Type 0 where
  pub seen : D → View
  pub acquire :
      (d : D)
      → Changes
          (seen d)
          (record (seen d) { out = (seen d).out + 1 })
          (seen (back.acquire d).1)
          (back.acquire d).0
  pub release : (d : D) → seen (back.release d) ≡ record (seen d) { out = (seen d).out - 1 }
  pub take_lock :
      (k : ℕ) (d : D)
      → Changes
          (seen d)
          (record (seen d) { held = k ∷ (seen d).held })
          (seen (back.take_lock k d).1)
          (back.take_lock k d).0
  pub try_lock :
      (k : ℕ) (d : D) → Tries k (seen d) (seen (back.try_lock k d).1) (back.try_lock k d).0
  -- Whether the statement that frees a lock succeeds; where it fails, the session holds the lock on.
  pub frees : ℕ → D → Bool
  pub unlock :
      (k : ℕ) (d : D)
      → seen (back.unlock k d)
        ≡ (if frees k d then record (seen d) { held = without k (seen d).held } else seen d)
  pub create_versions : (d : D) → seen (back.create_versions d).1 ≡ seen d
  pub is_applied :
      (v : String) (d : D)
      → Tells (contains v (versions (seen d).log)) (back.is_applied v d).0
        × (seen (back.is_applied v d).1 ≡ seen d)
  pub begin :
      (d : D)
      → Changes (seen d) (record (seen d) { pending = [] }) (seen (back.begin d).1) (back.begin d).0
  pub exec_body :
      (body : String) (d : D)
      → Adds (seen d) (ran body ∷ []) (seen (back.exec_body body d).1) (back.exec_body body d).0
  pub record_version :
      (v : String) (d : D)
      → Adds
          (seen d)
          (recorded v ∷ [])
          (seen (back.record_version v d).1)
          (back.record_version v d).0
  pub rollback : (d : D) → seen (back.rollback d) ≡ record (seen d) { pending = [] }
  pub commit : (d : D) → Commits (seen d) (seen (back.commit d).1) (back.commit d).0

-- The locks are those of before, or the statement that frees a lock has failed, and that lock lingers.
abbrev pub GivenBack : {D : Type 0} (back : Backend D) → BackendLaws back → ℕ → View → View → Type 0
GivenBack {D} back laws k v v' =
    (v'.held ≡ v.held) ⊎ ((d : D) × (laws.frees k d ≡ false) × (v'.held ≡ k ∷ v.held))

-- The same from a view that holds the same locks.
pub from_held :
    {D : Type 0} (back : Backend D) (laws : BackendLaws back) (k : ℕ) (v u v' : View)
    → u.held ≡ v.held
    → GivenBack back laws k u v'
    → GivenBack back laws k v v'
from_held back laws k v u v' h (inl same) = inl (same ∙ h)
from_held back laws k v u v' h (inr (d, fails, lingers)) =
    inr (d, fails, lingers ∙ ap (λ l. k ∷ l) h)
