-- ===== src/Store/Memory/Laws.antt =====
-- store/memory/memory.go as a store with the laws of Store/Laws, on its valid states.
use helppi_scim_go.Prelude.{ℕ, ◌+◌, String, ◌≡◌, refl, arith, eq_iff, itoa, itoa-ne-empty}
use helppi_scim_go.Exec.{Exec, is_not_found}
use helppi_scim_go.Store.Types.{Store, NewHelpper, HelpperUpdate}
use helppi_scim_go.Store.Laws.{StoreLaws, LookupAnswer, CreateAnswer}
use helppi_scim_go.Scim.Types.{Time}
use helppi_scim_go.Store.Memory.{
  Memory, allocate, helpper_by_directory_id, create_helpper, update_helpper, enabled_helppers,
  checkpoint, set_checkpoint,
}
use helppi_scim_go.Store.Memory.Valid.{IsValid, create-IsValid, update-IsValid}
use helppi_scim_go.Store.Memory.Views.{view, view-create, view-update, contains-enabled}

-- A valid state of the store.
abbrev pub Valid : Type 0
Valid = (m : Memory) × IsValid m

-- An operation that keeps the store valid, on valid states.
abbrev pub on_valid :
    {A : Type 0} (f : Exec Memory A) → ((m : Memory) → IsValid m → IsValid (f m).1) → Exec Valid A
on_valid f keeps (m, v) = ((f m).0, ((f m).1, keeps m v))

pub lookup-IsValid : (k : String) (m : Memory) → IsValid m → IsValid (helpper_by_directory_id k m).1
unfolding helpper_by_directory_id
lookup-IsValid k m v = ground arith

pub enabled-IsValid : (m : Memory) → IsValid m → IsValid (enabled_helppers m).1
unfolding enabled_helppers
enabled-IsValid m v = v

pub checkpoint-IsValid : (m : Memory) → IsValid m → IsValid (checkpoint m).1
unfolding checkpoint
checkpoint-IsValid m v = v

pub set_checkpoint-IsValid : (at : Time) (m : Memory) → IsValid m → IsValid (set_checkpoint at m).1
unfolding set_checkpoint
set_checkpoint-IsValid at m v = record {
  dirs = v.dirs;
  ids = v.ids;
  unallocated = v.unallocated;
  ids_free = v.ids_free;
  distinct = v.distinct;
}

module _ (now : ℕ → Time) where
  -- The operations of the reference store on its valid states.
  abbrev pub valid_store : Store Valid
  valid_store = record {
    helpper_by_directory_id = λ k. on_valid (helpper_by_directory_id k) (lookup-IsValid k);
    create_helpper = λ n. on_valid (create_helpper now n) (λ m v. create-IsValid now m v n);
    update_helpper =
        λ id upd. on_valid (update_helpper now id upd) (λ m v. update-IsValid now m v id upd);
    enabled_helppers = on_valid enabled_helppers enabled-IsValid;
    checkpoint = on_valid checkpoint checkpoint-IsValid;
    set_checkpoint = λ at. on_valid (set_checkpoint at) (set_checkpoint-IsValid at);
  }

  pub view-lookup :
      (k : String) (m : Memory) (j : String) → view (helpper_by_directory_id k m).1 j ≡ view m j
  unfolding helpper_by_directory_id
  view-lookup k m j = ground arith

  pub checkpoint-lookup :
      (k : String) (m : Memory) → (helpper_by_directory_id k m).1.checkpoint ≡ m.checkpoint
  unfolding helpper_by_directory_id
  checkpoint-lookup k m = ground arith

  pub LookupAnswer-lookup :
      (k : String) (m : Memory) → LookupAnswer (view m k) (helpper_by_directory_id k m).0
  unfolding helpper_by_directory_id is_not_found
  LookupAnswer-lookup k m = ground arith

  -- A create answers with an enabled helper of the payload and a non-empty id, and only where there was
  -- none; it answers `ErrAlreadyExists` only where there was one.
  pub CreateAnswer-create :
      (n : NewHelpper) (m : Memory)
      → IsValid m
      → CreateAnswer n (view m n.directory_id) (create_helpper now n m).0
  unfolding create_helpper
  CreateAnswer-create n m v = ground (
    arith,
    itoa-ne-empty (m.next_id + 1),
    eq_iff (itoa (m.next_id + 1)) "",
    v.dirs n.directory_id,
  )

  pub checkpoint-create :
      (n : NewHelpper) (m : Memory) → (create_helpper now n m).1.checkpoint ≡ m.checkpoint
  unfolding create_helpper allocate
  checkpoint-create n m = ground arith

  pub checkpoint-update :
      (id : String) (upd : HelpperUpdate) (m : Memory)
      → (update_helpper now id upd m).1.checkpoint ≡ m.checkpoint
  unfolding update_helpper
  checkpoint-update id upd m = ground arith

  -- The reference store is a lawful store.
  unfoldable pub memory-StoreLaws : StoreLaws valid_store
  unfolding enabled_helppers checkpoint set_checkpoint
  memory-StoreLaws = record {
    view = λ t. view t.0;
    mark = λ t. t.0.checkpoint;
    kept = λ at. at;
    kept_le = λ at. omega arith;
    stamp = λ t. now t.0.readings;
    lookup_view = λ k t j. view-lookup k t.0 j;
    lookup_mark = λ k t. checkpoint-lookup k t.0;
    lookup_answer = λ k t. LookupAnswer-lookup k t.0;
    create_view = λ n t j. view-create now t.0 t.1 n j;
    create_answer = λ n t. CreateAnswer-create n t.0 t.1;
    create_mark = λ n t. checkpoint-create n t.0;
    update_view = λ k p upd t j found. view-update now t.0 t.1 k p upd j found;
    update_mark = λ i upd t. checkpoint-update i upd t.0;
    enabled_view = λ t j. refl;
    enabled_mark = λ t. refl;
    enabled_answer = λ t j. contains-enabled t.0 t.1 j;
    checkpoint_view = λ t j. refl;
    checkpoint_mark = λ t. refl;
    checkpoint_answer = λ t. refl;
    set_checkpoint_view = λ at t j. refl;
    set_checkpoint_mark = λ at t. refl;
  }

  -- On states in which its two maps agree, and which every operation keeps so, the reference store has the laws of the
  -- interface: its helper under a directory id is the record that the first map leads to, its checkpoint is the last
  -- one written, and it keeps an instant as it is.
  pub memory-IsLawful :
      (sl : StoreLaws valid_store) × ((m : Valid) (k : String) → sl.view m k ≡ view m.0 k)
      × ((m : Valid) → sl.mark m ≡ m.0.checkpoint)
      × ((at : Time) → sl.kept at ≡ at)
  unfolding memory-StoreLaws
  memory-IsLawful = (memory-StoreLaws, λ m k. refl, λ m. refl, λ at. refl)
