-- ===== src/Store/Memory/Valid.antt =====
-- The well-formedness of the two maps of store/memory/memory.go between two calls.
use helppi_scim_go.Prelude.{
  ℕ, ◌+◌, ◌<◌, ◌≤◌, String, ◌=ₛ◌, Option, none, some, ◌≡◌, refl, arith, eq_iff, itoa,
  itoa-injective, Option-cases, inl, inr, Bool-cases,
}
use helppi_scim_go.Store.Types.{Helpper, NewHelpper, HelpperUpdate}
use helppi_scim_go.Scim.Types.{Time}
use helppi_scim_go.Store.Memory.Maps.{lookup, lookup-insert, Distinct, insert-Distinct}
use helppi_scim_go.Store.Memory.{
  Memory, empty, update, allocate, create_helpper, overwritten, overwrite, update_helpper,
}

-- The record under the directory id `k` carries it, and stands at the same pointer under its own id.
abbrev DirTarget : Memory → String → ℕ → Option Helpper → Type 0
DirTarget m k p none = ⊥
DirTarget m k p (some h) = (h.directory_id ≡ k) × (lookup h.id m.by_id ≡ some p)

abbrev DirEntry : Memory → String → Option ℕ → Type 0
DirEntry m k none = Unit
DirEntry m k (some p) = DirTarget m k p (m.cell p)

-- The same of the record under an id.
abbrev IdTarget : Memory → String → ℕ → Option Helpper → Type 0
IdTarget m i p none = ⊥
IdTarget m i p (some h) = (h.id ≡ i) × (lookup h.directory_id m.by_dir_id ≡ some p)

abbrev IdEntry : Memory → String → Option ℕ → Type 0
IdEntry m i none = Unit
IdEntry m i (some p) = IdTarget m i p (m.cell p)

pub record IsValid (m : Memory) : Type 0 where
  pub dirs : (k : String) → DirEntry m k (lookup k m.by_dir_id)
  pub ids : (i : String) → IdEntry m i (lookup i m.by_id)
  pub unallocated : (p : ℕ) → m.free ≤ p → m.cell p ≡ none
  pub ids_free : (n : ℕ) → m.next_id < n → lookup (itoa n) m.by_id ≡ none
  pub distinct : Distinct m.by_dir_id

pub empty-IsValid : IsValid empty
unfolding lookup
empty-IsValid = record {
  dirs = λ k. tt;
  ids = λ i. tt;
  unallocated = λ p h. refl;
  ids_free = λ n h. refl;
  distinct = tt;
}

module _ (now : ℕ → Time) (m : Memory) (v : IsValid m) where
  module _ (n : NewHelpper) (absent : lookup n.directory_id m.by_dir_id ≡ none) where
    abbrev i : String
    i = itoa (m.next_id + 1)

    abbrev m' : Memory
    m' = allocate now n m

    target_dirs :
        (k : String) (p : ℕ) (c : Option Helpper)
        → m.cell p ≡ c
        → DirTarget m k p c
        → DirEntry m' k (some p)
    unfolding allocate
    target_dirs k p none e h = elim h [ ]
    target_dirs k p (some h) e (d, q) = ground (
      arith,
      v.unallocated m.free,
      lookup-insert i h.id m.free m.by_id,
      eq_iff i h.id,
      v.ids_free (m.next_id + 1),
    )

    entry_dirs : (k : String) (o : Option ℕ) → DirEntry m k o → DirEntry m' k o
    entry_dirs k none h = tt
    entry_dirs k (some p) h = target_dirs k p (m.cell p) refl h

    dirs-allocate : (k : String) → DirEntry m' k (lookup k m'.by_dir_id)
    unfolding allocate
    dirs-allocate k = elim (Bool-cases (n.directory_id =ₛ k)) [
      | inl e ↦
          rw (lookup-insert, e)
            (ground (arith, eq_iff n.directory_id k, lookup-insert i i m.free m.by_id, eq_iff i i))
      | inr e ↦ rw (lookup-insert, e) (entry_dirs k (lookup k m.by_dir_id) (v.dirs k))
    ]

    target_ids :
        (j : String) (p : ℕ) (c : Option Helpper)
        → m.cell p ≡ c
        → IdTarget m j p c
        → IdEntry m' j (some p)
    unfolding allocate
    target_ids j p none e h = elim h [ ]
    target_ids j p (some h) e (d, q) = ground (
      arith,
      v.unallocated m.free,
      lookup-insert n.directory_id h.directory_id m.free m.by_dir_id,
      eq_iff n.directory_id h.directory_id,
    )

    entry_ids : (j : String) (o : Option ℕ) → IdEntry m j o → IdEntry m' j o
    entry_ids j none h = tt
    entry_ids j (some p) h = target_ids j p (m.cell p) refl h

    ids-allocate : (j : String) → IdEntry m' j (lookup j m'.by_id)
    unfolding allocate
    ids-allocate j = elim (Bool-cases (i =ₛ j)) [
      | inl e ↦
          rw (lookup-insert, e)
            (ground (
              arith,
              eq_iff i j,
              lookup-insert n.directory_id n.directory_id m.free m.by_dir_id,
              eq_iff n.directory_id n.directory_id,
            ))
      | inr e ↦ rw (lookup-insert, e) (entry_ids j (lookup j m.by_id) (v.ids j))
    ]

    pub allocate-IsValid : IsValid m'
    unfolding allocate
    allocate-IsValid = record {
      dirs = dirs-allocate;
      ids = ids-allocate;
      unallocated = λ p h. ground (arith, v.unallocated p);
      ids_free = λ k h. ground (
        arith,
        lookup-insert i (itoa k) m.free m.by_id,
        eq_iff i (itoa k),
        itoa-injective (m.next_id + 1) k,
        v.ids_free k,
      );
      distinct = insert-Distinct n.directory_id m.free m.by_dir_id v.distinct;
    }

  -- A create keeps the store valid, whether it succeeds or is refused: the two maps stay in agreement
  -- and the next id stays unused.
  pub create-IsValid : (n : NewHelpper) → IsValid (create_helpper now n m).1
  unfolding create_helpper
  create-IsValid n = elim (Option-cases (lookup n.directory_id m.by_dir_id)) [
    | inl absent ↦ rw (absent, create_helpper) (allocate-IsValid n absent)
    | inr (p, found) ↦ rw (found, create_helpper) v
  ]

  module _ (upd : HelpperUpdate) (p : ℕ) (h : Helpper) (found : m.cell p ≡ some h) where
    abbrev w' : Memory
    w' = record m {
      cell = update m.cell p (overwritten now upd (now m.readings) h);
      readings = m.readings + 1;
    }

    overwritten-IsValid : IsValid w'
    overwritten-IsValid = record {
      dirs = λ k. ground (arith, v.dirs k);
      ids = λ k. ground (arith, v.ids k);
      unallocated = λ q free. ground (arith, v.unallocated q);
      ids_free = v.ids_free;
      distinct = v.distinct;
    }

  overwrite-IsValid : (upd : HelpperUpdate) (p : ℕ) → IsValid (overwrite now upd p m).1
  unfolding overwrite
  overwrite-IsValid upd p = elim (Option-cases (m.cell p)) [
    | inl dangling ↦ rw (dangling, overwrite) v
    | inr (h, found) ↦ rw (found, overwrite) (overwritten-IsValid upd p h found)
  ]

  -- An update keeps the store valid, for a known and for an unknown id.
  pub update-IsValid : (id : String) (upd : HelpperUpdate) → IsValid (update_helpper now id upd m).1
  unfolding update_helpper
  update-IsValid id upd = elim (Option-cases (lookup id m.by_id)) [
    | inl absent ↦ rw (absent, update_helpper) v
    | inr (p, found) ↦ rw (found, update_helpper) (overwrite-IsValid upd p)
  ]
