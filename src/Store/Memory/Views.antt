-- ===== src/Store/Memory/Views.antt =====
-- What a client sees of the reference store: the record under a directory id.
use helppi_scim_go.Prelude.{
  ℕ, String, ◌=ₛ◌, ◌||◌, Option, none, some, List, [], ◌∷◌, map, ◌≡◌, refl, arith, eq_iff, contains,
  ◌∙◌,
}
use helppi_scim_go.Store.Types.{Helpper, NewHelpper, HelpperUpdate}
use helppi_scim_go.Store.Laws.{is_enabled, created_view, updated_view, amended}
use helppi_scim_go.Scim.Types.{Time}
use helppi_scim_go.Store.Memory.Maps.{lookup, lookup-insert, Distinct}
use helppi_scim_go.Store.Memory.{
  Memory, allocate, create_helpper, overwrite, update_helpper, enabled_of, insert_sorted,
  sort_by_directory_id,
}
use helppi_scim_go.Store.Memory.Valid.{IsValid}

abbrev pub deref : (ℕ → Option Helpper) → Option ℕ → Option Helpper
deref cell none = none
deref cell (some p) = cell p

abbrev pub view : Memory → String → Option Helpper
view m k = deref m.cell (lookup k m.by_dir_id)

module _ (now : ℕ → Time) (m : Memory) (v : IsValid m) where
  -- A create of the reference store that succeeds changes the helper under its own directory id, to the
  -- one it returns, and no other; one that fails changes none. For every valid state of the store.
  pub view-create :
      (n : NewHelpper) (j : String)
      → view (create_helpper now n m).1 j ≡ created_view n j (view m j) (create_helpper now n m).0
  unfolding create_helpper allocate
  view-create n j =
      ground
        (arith, lookup-insert n.directory_id j m.free m.by_dir_id, v.dirs j, v.unallocated m.free)

  -- An update by the id of the helper under a directory id is seen there, with the identity kept and
  -- the new fields and instant, and under no other directory id. For every valid state of the store.
  pub view-update :
      (k : String) (p : Helpper) (upd : HelpperUpdate) (j : String)
      → view m k ≡ some p
      → view (update_helpper now p.id upd m).1 j
        ≡ updated_view k
            (amended p upd (now m.readings))
            j
            (view m j)
            (update_helpper now p.id upd m).0
  unfolding update_helpper overwrite
  view-update k p upd j found = ground (arith, v.dirs k, v.dirs j, v.ids p.id, eq_iff k j)

-- The directory ids of a list of records.
abbrev pub names : List Helpper → List String
names = map (λ h. h.directory_id)

pub contains-insert_sorted :
    (j : String) (h : Helpper) (l : List Helpper)
    → contains j (names (insert_sorted h l)) ≡ (h.directory_id =ₛ j || contains j (names l))
unfolding contains insert_sorted
contains-insert_sorted j h [] = refl
contains-insert_sorted j h (g ∷ l) = ground (arith, contains-insert_sorted j h l)

pub contains-sort :
    (j : String) (l : List Helpper)
    → contains j (names (sort_by_directory_id l)) ≡ contains j (names l)
unfolding contains sort_by_directory_id
contains-sort j [] = refl
contains-sort j (h ∷ l) =
    ground (arith, contains-sort j l, contains-insert_sorted j h (sort_by_directory_id l))

-- The entries of a map point to records that carry their keys.
abbrev pub Carries : String → Option Helpper → Type 0
Carries k none = ⊥
Carries k (some h) = h.directory_id ≡ k

abbrev pub AllCarry : (ℕ → Option Helpper) → List (String × ℕ) → Type 0
AllCarry cell [] = Unit
AllCarry cell ((k, p) ∷ l) = Carries k (cell p) × AllCarry cell l

pub contains-enabled_of :
    (cell : ℕ → Option Helpper) (j : String) (l : List (String × ℕ))
    → Distinct l
    → AllCarry cell l
    → contains j (names (enabled_of cell l)) ≡ is_enabled (deref cell (lookup j l))
unfolding contains enabled_of lookup
contains-enabled_of cell j [] d c = refl
contains-enabled_of cell j ((k, p) ∷ l) (absent, d) (carries, c) =
    ground (arith, contains-enabled_of cell j l d c, eq_iff k j)

abbrev pub EntryCarries : (ℕ → Option Helpper) → String → Option ℕ → Type 0
EntryCarries cell k none = Unit
EntryCarries cell k (some p) = Carries k (cell p)

pub AllCarry-of :
    (cell : ℕ → Option Helpper) (l : List (String × ℕ))
    → Distinct l
    → ((k : String) → EntryCarries cell k (lookup k l))
    → AllCarry cell l
unfolding lookup
AllCarry-of cell [] d h = tt
AllCarry-of cell ((k, p) ∷ l) (absent, d) h =
    (ground (arith, h k, eq_iff k k), AllCarry-of cell l d (λ j. ground (arith, h j, eq_iff k j)))

module _ (m : Memory) (v : IsValid m) where
  pub entry_carries : (k : String) → EntryCarries m.cell k (lookup k m.by_dir_id)
  entry_carries k = ground (arith, v.dirs k)

  -- The list of enabled helppers names a directory id exactly when an enabled record stands under it.
  pub contains-enabled :
      (j : String)
      → contains j (names (sort_by_directory_id (enabled_of m.cell m.by_dir_id)))
        ≡ is_enabled (view m j)
  contains-enabled j =
      contains-sort j (enabled_of m.cell m.by_dir_id)
      ∙ contains-enabled_of m.cell j m.by_dir_id v.distinct
          (AllCarry-of m.cell m.by_dir_id v.distinct entry_carries)
