-- ===== src/Store/Memory/Listed.antt =====
-- The list that `EnabledHelppers` of store/memory/memory.go answers: every helpper is the one under its directory id.
use helppi_scim_go.Prelude.{
  ℕ, String, false, Option, some, List, [], ◌∷◌, ◌≡◌, refl, arith, eq_iff, contains, ◌∙◌,
}
use helppi_scim_go.Exec.{ok}
use helppi_scim_go.Store.Types.{Helpper}
use helppi_scim_go.Store.Laws.{AreViews, is_enabled}
use helppi_scim_go.Store.Memory.Maps.{lookup, Distinct}
use helppi_scim_go.Store.Memory.{
  Memory, enabled_helppers, enabled_of, insert_sorted, sort_by_directory_id,
}
use helppi_scim_go.Store.Memory.Valid.{IsValid}
use helppi_scim_go.Store.Memory.Views.{
  view, names, contains-enabled, contains-insert_sorted, contains-sort, contains-enabled_of,
  AllCarry, AllCarry-of, entry_carries,
}

module _ (v : String → Option Helpper) where
  insert_sorted-AreViews :
      (h : Helpper) (l : List Helpper)
      → v h.directory_id ≡ some h
      → contains h.directory_id (names l) ≡ false
      → AreViews v l
      → AreViews v (insert_sorted h l)
  unfolding insert_sorted contains
  insert_sorted-AreViews h [] own absent rest = (own, refl, tt)
  insert_sorted-AreViews h (g ∷ l) own absent (g_own, g_absent, rest) = ground (
    arith,
    contains-insert_sorted g.directory_id h l,
    eq_iff g.directory_id h.directory_id,
    eq_iff h.directory_id g.directory_id,
    insert_sorted-AreViews h l own,
  )

  sort-AreViews : (l : List Helpper) → AreViews v l → AreViews v (sort_by_directory_id l)
  unfolding sort_by_directory_id
  sort-AreViews [] h = tt
  sort-AreViews (h ∷ l) (own, absent, rest) =
      insert_sorted-AreViews h (sort_by_directory_id l) own
        (contains-sort h.directory_id l ∙ absent) (sort-AreViews l rest)

  -- The view is what the entries of a map lead to.
  abbrev IsViewOf : (ℕ → Option Helpper) → List (String × ℕ) → Type 0
  IsViewOf cell l = (k : String) (p : ℕ) → lookup k l ≡ some p → v k ≡ cell p

  enabled_of-AreViews :
      (cell : ℕ → Option Helpper) (l : List (String × ℕ))
      → Distinct l
      → AllCarry cell l
      → IsViewOf cell l
      → AreViews v (enabled_of cell l)
  unfolding lookup enabled_of
  enabled_of-AreViews cell [] d c h = tt
  enabled_of-AreViews cell ((k, p) ∷ l) (absent, d) (carries, c) h =
      let rest = enabled_of-AreViews cell l d c (λ j q e. ground (arith, h j q, eq_iff k j)) in
      ground (arith, rest, h k p, eq_iff k k, contains-enabled_of cell k l d c)

-- The list of enabled helppers holds each helpper as it stands under its directory id, and once.
pub enabled-AreViews :
    (m : Memory)
    → IsValid m
    → AreViews (view m) (sort_by_directory_id (enabled_of m.cell m.by_dir_id))
enabled-AreViews m v = sort-AreViews (view m) (enabled_of m.cell m.by_dir_id) (
    enabled_of-AreViews (view m) m.cell m.by_dir_id v.distinct
      (AllCarry-of m.cell m.by_dir_id v.distinct (entry_carries m v)) (λ k p e. ground (arith, e)))

-- `EnabledHelppers` of a valid store answers without an error, with a list in which every helpper is the
-- one that stands under its directory id, no directory id stands twice, and a directory id stands exactly
-- when an enabled helpper is under it.
pub enabled_helppers-lists :
    (m : Memory)
    → IsValid m
    → (ps : List Helpper) × ((enabled_helppers m).0 ≡ ok ps)
      × AreViews (view m) ps
      × ((j : String) → contains j (names ps) ≡ is_enabled (view m j))
unfolding enabled_helppers
enabled_helppers-lists m v = (
  sort_by_directory_id (enabled_of m.cell m.by_dir_id),
  refl,
  enabled-AreViews m v,
  contains-enabled m v,
)
