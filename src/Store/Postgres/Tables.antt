-- ===== src/Store/Postgres/Tables.antt =====
-- What store/postgres/postgres.go relies on in PostgreSQL: the tables of migrations/0001_init.sql, and what each
-- statement does to them. A statement that fails has changed nothing.
use helppi_scim_go.Prelude.{
  ℕ, ◌+◌, ◌≤◌, String, ◌=ₛ◌, Bool, true, false, ◌==◌, pos, negsuc, Option, none, some, List, [],
  ◌∷◌, ◌++◌, ◌≡◌, ◌≢◌, ℤ, if◌then◌else◌,
}
use helppi_scim_go.Exec.{Result, ok, err, Error, is_not_found, is_already_exists, atoi}
use helppi_scim_go.Scim.Types.{Time}
use helppi_scim_go.Store.Types.{Helpper, NewHelpper, HelpperUpdate}
use helppi_scim_go.Store.Laws.{amended}
use helppi_scim_go.Store.Memory.Maps.{lookup, insert}
use helppi_scim_go.Store.Postgres.{Database, Scans}

-- The rows of `helppers`, in the order of their insertion, and `directory_sync_state`, by partner.
pub record Tables : Type 0 where
  pub rows : List Helpper
  pub sync_state : List (String × ℕ)

-- where directory_id = k
unfoldable pub find : String → List Helpper → Option Helpper
find k [] = none
find k (r ∷ rs) = if r.directory_id =ₛ k then some r else find k rs

abbrev pub same_number : ℤ → ℤ → Bool
same_number (pos a) (pos b) = a == b
same_number (negsuc a) (negsuc b) = a == b
same_number _ _ = false

abbrev pub is_number : Option ℤ → ℤ → Bool
is_number none z = false
is_number (some n) z = same_number n z

-- where id = z: the key is a bigint, of which the model has the text that `id::text` prints.
abbrev pub has_key : ℤ → Helpper → Bool
has_key z r = is_number (atoi r.id) z

-- How many rows have a key.
unfoldable pub affected : ℤ → List Helpper → ℕ
affected z [] = 0
affected z (r ∷ rs) = (if has_key z r then 1 else 0) + affected z rs

-- The rows after an update of those with a key.
unfoldable pub amend : ℤ → HelpperUpdate → Time → List Helpper → List Helpper
amend z upd at [] = []
amend z upd at (r ∷ rs) = (if has_key z r then amended r upd at else r) ∷ amend z upd at rs

-- where enabled
unfoldable pub enabled_rows : List Helpper → List Helpper
enabled_rows [] = []
enabled_rows (r ∷ rs) = if r.enabled then r ∷ enabled_rows rs else enabled_rows rs

-- The unique index on directory_id, the primary key, and that a key is the text of a bigint.
abbrev pub Constrained : List Helpper → Type 0
Constrained [] = Unit
Constrained (r ∷ rs) =
    (find r.directory_id rs ≡ none)
    × (n : ℤ) × (atoi r.id ≡ some n)
    × (affected n rs ≡ 0)
    × Constrained rs

-- The same rows in another order.
pub data Permutes : List Helpper → List Helpper → Type 0 where
  nothing : Permutes [] []
  keep : (r : Helpper) {rs ss : List Helpper} → Permutes rs ss → Permutes (r ∷ rs) (r ∷ ss)
  swap : (r s : Helpper) (rs : List Helpper) → Permutes (r ∷ s ∷ rs) (s ∷ r ∷ rs)
  then_next : {rs ss ts : List Helpper} → Permutes rs ss → Permutes ss ts → Permutes rs ts

-- The scans read the rows in order, to the end or to a failure.
abbrev pub Reads : List (Result (Option Helpper)) → Option Error → List Helpper → Type 0
Reads [] none ps = ps ≡ []
Reads [] (some e) ps = Unit
Reads (err e ∷ ss) closing ps = Unit
Reads (ok none ∷ ss) closing ps = ⊥
Reads (ok (some h) ∷ ss) closing [] = ⊥
Reads (ok (some h) ∷ ss) closing (p ∷ ps) = (h ≡ p) × Reads ss closing ps

-- An error of the driver is none of the two of package `store`.
abbrev pub Foreign : Error → Type 0
Foreign e = (is_not_found e ≡ false) × (is_already_exists e ≡ false)

abbrev pub SelectAnswer : String → List Helpper → Result (Option Helpper) → Type 0
SelectAnswer k rows (ok o) = o ≡ find k rows
SelectAnswer k rows (err e) = Foreign e

abbrev pub InsertAnswer : NewHelpper → Tables → Tables → Result (Option Helpper) → Type 0
InsertAnswer n t t' (ok none) = (find n.directory_id t.rows ≢ none) × (t' ≡ t)
InsertAnswer n t t' (ok (some p)) =
    (find n.directory_id t.rows ≡ none)
    × (t' ≡ record t { rows = t.rows ++ p ∷ [] })
    × (p.directory_id ≡ n.directory_id)
    × (p.login ≡ n.login)
    × (p.display_name ≡ n.display_name)
    × (p.enabled ≡ true)
InsertAnswer n t t' (err e) = Foreign e × (t' ≡ t)

abbrev pub UpdateAnswer : ℤ → HelpperUpdate → Time → Tables → Tables → Result ℕ → Type 0
UpdateAnswer z upd at t t' (ok n) =
    (n ≡ affected z t.rows) × (t' ≡ record t { rows = amend z upd at t.rows })
UpdateAnswer z upd at t t' (err e) = Foreign e × (t' ≡ t)

abbrev pub EnabledAnswer : List Helpper → Result Scans → Type 0
EnabledAnswer rows (ok s) =
    (ps : List Helpper) × Permutes ps (enabled_rows rows) × Reads s.scans s.closing ps
EnabledAnswer rows (err e) = Unit

abbrev pub SyncAnswer : Option Time → Result (Option Time) → Type 0
SyncAnswer v (ok o) = o ≡ v
SyncAnswer v (err e) = Unit

abbrev pub UpsertAnswer : String → Time → Tables → Tables → Result (Unit {0}) → Type 0
UpsertAnswer partner at t t' (ok _) = t' ≡ record t { sync_state = insert partner at t.sync_state }
UpsertAnswer partner at t t' (err e) = t' ≡ t

pub record DatabaseLaws {D : Type 0} (db : Database D) : Type 0 where
  pub tables : D → Tables
  -- now() of an update
  pub now : D → Time
  -- What a timestamptz keeps of an instant: whole microseconds.
  pub stored : Time → Time
  pub stored_le : (at : Time) → stored at ≤ at
  pub constraints : (d : D) → Constrained (tables d).rows
  pub select_helpper :
      (k : String) (d : D)
      → SelectAnswer k (tables d).rows (db.select_helpper k d).0
        × (tables (db.select_helpper k d).1 ≡ tables d)
  pub insert_helpper :
      (n : NewHelpper) (d : D)
      → InsertAnswer n (tables d) (tables (db.insert_helpper n d).1) (db.insert_helpper n d).0
  -- The argument is cast to a bigint, as `strconv.ParseInt` reads it: "007" and "+7" are the key 7.
  pub update_rows :
      (i : String) (z : ℤ) (upd : HelpperUpdate) (d : D)
      → atoi i ≡ some z
      → UpdateAnswer z upd
          (now d)
          (tables d)
          (tables (db.update_rows i upd d).1)
          (db.update_rows i upd d).0
  pub select_enabled :
      (d : D)
      → EnabledAnswer (tables d).rows (db.select_enabled d).0
        × (tables (db.select_enabled d).1 ≡ tables d)
  pub select_checkpoint :
      (partner : String) (d : D)
      → SyncAnswer (lookup partner (tables d).sync_state) (db.select_checkpoint partner d).0
        × (tables (db.select_checkpoint partner d).1 ≡ tables d)
  pub upsert_checkpoint :
      (partner : String) (at : Time) (d : D)
      → UpsertAnswer partner
          (stored at)
          (tables d)
          (tables (db.upsert_checkpoint partner at d).1)
          (db.upsert_checkpoint partner at d).0
