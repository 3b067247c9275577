-- ===== src/Store/Postgres.antt =====
-- store/postgres/postgres.go: the store on a PostgreSQL database. The database is a parameter with one
-- operation for each SQL statement of the file, with its arguments in place of its text.
pub mod Tables
pub mod Rows
pub mod Answers
pub mod Laws
pub mod Listed
pub mod Backend
pub mod Migrate
pub mod Lock
use helppi_scim_go.Prelude.{
  ℕ, ◌/◌, ◌^◌, ◌==◌, String, ◌=ₛ◌, ◌+ₛ◌, Option, none, some, List, [], ◌∷◌, ◌++◌, if◌then◌else◌,
}
use helppi_scim_go.Exec.{
  Exec, Result, ok, err, Error, not_found, already_exists, wrap, is_not_found, atoi, context,
}
use helppi_scim_go.Scim.Types.{Time}
use helppi_scim_go.Store.Types.{Store, Helpper, NewHelpper, HelpperUpdate}

-- What `Query` returns: the scans of the rows, in order, and what `rows.Err` reports after them.
pub record Scans : Type 0 where
  pub scans : List (Result (Option Helpper))
  pub closing : Option Error

-- The statements. A scan of a row is `ok none` where there is none: `pgx.ErrNoRows`.
pub record Database (D : Type 0) : Type 0 where
  -- select … from helppers where directory_id = $1
  pub select_helpper : String → Exec D (Option Helpper)
  -- insert into helppers … on conflict (directory_id) do nothing returning …
  pub insert_helpper : NewHelpper → Exec D (Option Helpper)
  -- update helppers set … where id = $1::bigint: the number of the rows affected
  pub update_rows : String → HelpperUpdate → Exec D ℕ
  -- select … from helppers where enabled order by directory_id
  pub select_enabled : Exec D Scans
  -- select checkpoint from directory_sync_state where partner = $1
  pub select_checkpoint : String → Exec D (Option Time)
  -- insert into directory_sync_state … on conflict (partner) do update set checkpoint = …
  pub upsert_checkpoint : String → Time → Exec D (Unit {0})

-- The partner of `New`.
unfoldable pub partner_of : String → String
partner_of partner = if partner =ₛ "" then "helppi" else partner

unfoldable pub scan_helpper : Result (Option Helpper) → Result Helpper
scan_helpper (ok none) = err not_found
scan_helpper (ok (some h)) = ok h
scan_helpper (err e) = err e

unfoldable pub created : String → Result Helpper → Result Helpper
created directory_id (ok h) = ok h
created directory_id (err e) =
    if is_not_found e then err already_exists else err (wrap ("create helpper " +ₛ directory_id) e)

unfoldable pub updated : String → Result ℕ → Result (Unit {0})
updated id (err e) = err (wrap ("update helpper " +ₛ id) e)
updated id (ok n) = if n == 0 then err not_found else ok tt

-- The loop over the rows.
unfoldable pub collect :
    List (Result (Option Helpper)) → Option Error → List Helpper → Result (List Helpper)
unfolding scan_helpper
collect [] none out = ok out
collect [] (some e) out = err e
collect (s ∷ ss) closing out = elim (scan_helpper s) [
  | err e ↦ err e
  | ok h ↦ collect ss closing (out ++ h ∷ [])
]

unfoldable pub listed : Result Scans → Result (List Helpper)
unfolding collect
listed (err e) = err (wrap "list enabled helppers" e)
listed (ok rows) = collect rows.scans rows.closing []

-- `at.Unix() == 0`: the second of 1970-01-01 00:00:00 UTC, counted from Go's zero time.
abbrev pub epoch_second : ℕ
epoch_second = 62135596800

-- What `Checkpoint` makes of the instant in the row.
abbrev pub reading : Time → Time
reading at = if at / 10 ^ 9 == epoch_second then 0 else at

unfoldable pub checkpoint_of : Result (Option Time) → Result Time
checkpoint_of (err e) = err (wrap "read checkpoint" e)
checkpoint_of (ok none) = ok 0
checkpoint_of (ok (some at)) = ok (reading at)

module _ {D : Type 0} (db : Database D) where
  unfoldable pub helpper_by_directory_id : String → Exec D Helpper
  unfolding scan_helpper
  helpper_by_directory_id directory_id d =
      let (r, d') = db.select_helpper directory_id d in (scan_helpper r, d')

  unfoldable pub create_helpper : NewHelpper → Exec D Helpper
  unfolding scan_helpper created
  create_helpper n d =
      let (r, d') = db.insert_helpper n d in (created n.directory_id (scan_helpper r), d')

  unfoldable pub update_helpper : String → HelpperUpdate → Exec D (Unit {0})
  unfolding updated
  update_helpper id upd d = elim (atoi id) [
    | none ↦ (err not_found, d)
    | some _ ↦ (let (r, d') = db.update_rows id upd d in (updated id r, d'))
  ]

  unfoldable pub enabled_helppers : Exec D (List Helpper)
  unfolding listed
  enabled_helppers d = let (r, d') = db.select_enabled d in (listed r, d')

  module _ (partner : String) where
    unfoldable pub checkpoint : Exec D Time
    unfolding checkpoint_of
    checkpoint d = let (r, d') = db.select_checkpoint partner d in (checkpoint_of r, d')

    unfoldable pub set_checkpoint : Time → Exec D (Unit {0})
    set_checkpoint at d =
        let (r, d') = db.upsert_checkpoint partner at d in (context "write checkpoint" r, d')

    -- `New`: the store, for the directory of a partner.
    abbrev pub postgres_store : Store D
    postgres_store = record {
      helpper_by_directory_id = helpper_by_directory_id;
      create_helpper = create_helpper;
      update_helpper = update_helpper;
      enabled_helppers = enabled_helppers;
      checkpoint = checkpoint;
      set_checkpoint = set_checkpoint;
    }
