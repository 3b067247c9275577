-- ===== src/Store/Memory.antt =====
-- store/memory/memory.go: the reference store. Its two maps hold pointers to the same records, so the
-- records stand in a heap: an update through one map is seen through the other.
pub mod Maps
pub mod Valid
pub mod Views
pub mod Listed
pub mod Laws
pub mod Faultless
use helppi_scim_go.Prelude.{
  ℕ, suc, ◌+◌, ◌==◌, String, ◌=ₛ◌, Bool, true, false, Option, none, some, List, [], ◌∷◌, map,
  if◌then◌else◌, itoa,
}
use Prim.Native.String.{compare}
use text.Mathlib.Text.{is_lt}
use helppi_scim_go.Exec.{Exec, Result, ok, err, Error, message, not_found, already_exists}
use helppi_scim_go.Scim.Types.{Time}
use helppi_scim_go.Store.Types.{Store, Helpper, NewHelpper, HelpperUpdate}
use helppi_scim_go.Store.Memory.Maps.{lookup, insert}

pub record Memory : Type 0 where
  pub by_dir_id : List (String × ℕ)
  pub by_id : List (String × ℕ)
  pub next_id : ℕ
  pub checkpoint : Time
  -- The records, by pointer, and the next free pointer.
  pub cell : ℕ → Option Helpper
  pub free : ℕ
  -- The clock readings taken.
  pub readings : ℕ

abbrev pub update : (ℕ → Option Helpper) → ℕ → Helpper → ℕ → Option Helpper
update f p h q = if p == q then some h else f q

-- `New`, without its clock.
abbrev pub empty : Memory
empty = record {
  by_dir_id = [];
  by_id = [];
  next_id = 900000;
  checkpoint = 0;
  cell = λ _. none;
  free = 0;
  readings = 0;
}

-- What a dereference of a pointer that was never allocated would be.
abbrev pub nil_pointer : Error
nil_pointer = message "invalid memory address or nil pointer dereference"

abbrev pub load : (ℕ → Option Helpper) → ℕ → Result Helpper
load cell p = elim (cell p) [ none ↦ err nil_pointer | some h ↦ ok h ]

unfoldable pub helpper_by_directory_id : String → Exec Memory Helpper
unfolding lookup
helpper_by_directory_id directory_id m = elim (lookup directory_id m.by_dir_id) [
  | none ↦ (err not_found, m)
  | some p ↦ (load m.cell p, m)
]

-- The helpers that the map's pointers lead to and that are enabled.
abbrev enabled_or {ℓ} : {A : Type ℓ} → Option Helpper → (Helpper → A) → A → A
enabled_or none yes_case no_case = no_case
enabled_or (some h) yes_case no_case = if h.enabled then yes_case h else no_case

unfoldable pub enabled_of : (ℕ → Option Helpper) → List (String × ℕ) → List Helpper
enabled_of cell [] = []
enabled_of cell ((k, p) ∷ l) =
    let rest = enabled_of cell l in enabled_or (cell p) (λ h. h ∷ rest) rest

-- `sortByDirectoryID`: `sort.Slice` by the directory id.
unfoldable pub insert_sorted : Helpper → List Helpper → List Helpper
insert_sorted h [] = h ∷ []
insert_sorted h (g ∷ l) =
    let rest = insert_sorted h l in
    if is_lt (compare g.directory_id h.directory_id) then g ∷ rest else h ∷ g ∷ l

unfoldable pub sort_by_directory_id : List Helpper → List Helpper
unfolding insert_sorted
sort_by_directory_id [] = []
sort_by_directory_id (h ∷ l) = insert_sorted h (sort_by_directory_id l)

unfoldable pub enabled_helppers : Exec Memory (List Helpper)
unfolding enabled_of sort_by_directory_id
enabled_helppers m = (ok (sort_by_directory_id (enabled_of m.cell m.by_dir_id)), m)

unfoldable pub checkpoint : Exec Memory Time
checkpoint m = (ok m.checkpoint, m)

unfoldable pub set_checkpoint : Time → Exec Memory (Unit {0})
set_checkpoint at m = (ok tt, record m { checkpoint = at })

-- The clock answers its k-th reading.
module _ (now : ℕ → Time) where
  abbrev pub fresh : NewHelpper → Memory → Helpper
  fresh n m = record {
    id = itoa (m.next_id + 1);
    directory_id = n.directory_id;
    login = n.login;
    display_name = n.display_name;
    enabled = true;
    created_at = now m.readings;
    updated_at = now m.readings;
  }

  unfoldable pub allocate : NewHelpper → Memory → Memory
  unfolding insert
  allocate n m = record m {
    next_id = m.next_id + 1;
    readings = m.readings + 1;
    cell = update m.cell m.free (fresh n m);
    free = m.free + 1;
    by_dir_id = insert n.directory_id m.free m.by_dir_id;
    by_id = insert (fresh n m).id m.free m.by_id;
  }

  unfoldable pub create_helpper : NewHelpper → Exec Memory Helpper
  unfolding lookup allocate
  create_helpper n m = elim (lookup n.directory_id m.by_dir_id) [
    | some _ ↦ (err already_exists, m)
    | none ↦ (ok (fresh n m), allocate n m)
  ]

  -- The record at a pointer with the fields of an update.
  abbrev pub overwritten : HelpperUpdate → Time → Helpper → Helpper
  overwritten upd at h = record h {
    enabled = upd.enabled;
    display_name = upd.display_name;
    login = upd.login;
    updated_at = at;
  }

  unfoldable pub overwrite : HelpperUpdate → ℕ → Exec Memory (Unit {0})
  overwrite upd p m = elim (m.cell p) [
    | none ↦ (err nil_pointer, m)
    | some h ↦ (
      ok tt,
      record m {
        cell = update m.cell p (overwritten upd (now m.readings) h);
        readings = m.readings + 1;
      },
    )
  ]

  unfoldable pub update_helpper : String → HelpperUpdate → Exec Memory (Unit {0})
  unfolding lookup overwrite
  update_helpper id upd m = elim (lookup id m.by_id) [
    | none ↦ (err not_found, m)
    | some p ↦ overwrite upd p m
  ]

  abbrev pub memory_store : Store Memory
  memory_store = record {
    helpper_by_directory_id = helpper_by_directory_id;
    create_helpper = create_helpper;
    update_helpper = update_helpper;
    enabled_helppers = enabled_helppers;
    checkpoint = checkpoint;
    set_checkpoint = set_checkpoint;
  }
