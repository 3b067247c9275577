-- ===== src/Store/Memory/Faultless.antt =====
-- The errors of store/memory/memory.go, on its valid states.
use helppi_scim_go.Prelude.{
  ℕ, String, ◌=ₛ◌, true, false, some, ◌≡◌, refl, arith, eq_iff, Option-cases, inl, inr,
}
use helppi_scim_go.Exec.{ok, is_not_found, is_already_exists}
use helppi_scim_go.Scim.Types.{Time}
use helppi_scim_go.Store.Types.{Helpper, NewHelpper, HelpperUpdate}
use helppi_scim_go.Store.Memory.{
  Memory, enabled_helppers, helpper_by_directory_id, create_helpper, update_helpper, overwrite,
  checkpoint, set_checkpoint,
}
use helppi_scim_go.Store.Memory.Maps.{lookup}
use helppi_scim_go.Store.Memory.Valid.{IsValid}
use helppi_scim_go.Store.Memory.Views.{view}
use helppi_scim_go.Store.Memory.Listed.{enabled-AreViews}
use helppi_scim_go.Store.Memory.Laws.{valid_store, memory-StoreLaws}
use helppi_scim_go.StoreTest.{fails_with}
use helppi_scim_go.StoreTest.Calls.{Faultless, FailsOnlyWith}

module _ (now : ℕ → Time) (m : Memory) (v : IsValid m) where
  lookup-FailsOnlyWith : (k : String) → FailsOnlyWith is_not_found (helpper_by_directory_id k m).0
  unfolding helpper_by_directory_id is_not_found
  lookup-FailsOnlyWith k = ground (arith, v.dirs k)

  create-FailsOnlyWith :
      (n : NewHelpper) → FailsOnlyWith is_already_exists (create_helpper now n m).0
  unfolding create_helpper is_already_exists
  create-FailsOnlyWith n = ground arith

  update-known :
      (k : String) (p : Helpper) (upd : HelpperUpdate)
      → view m k ≡ some p
      → (update_helpper now p.id upd m).0 ≡ ok tt
  unfolding update_helpper overwrite
  update-known k p upd h = ground (arith, v.dirs k)

  update-unknown :
      (i : String) (upd : HelpperUpdate)
      → ((k : String) (p : Helpper) → view m k ≡ some p → (p.id =ₛ i) ≡ false)
      → fails_with is_not_found (update_helpper now i upd m).0 ≡ true
  unfolding update_helpper is_not_found overwrite
  update-unknown i upd h = elim (Option-cases (lookup i m.by_id)) [
    | inl e ↦ ground (arith, e)
    | inr (q, e) ↦ elim (Option-cases (m.cell q)) [
      | inl c ↦ absurd (ground (arith, v.ids i, e, c))
      | inr (p, c) ↦ absurd (ground (arith, v.ids i, e, c, h p.directory_id p, eq_iff p.id i))
    ]
  ]

module _ (now : ℕ → Time) where
  -- The reference store has no faults.
  pub memory-Faultless : Faultless (valid_store now) (memory-StoreLaws now)
  unfolding memory-StoreLaws enabled_helppers checkpoint set_checkpoint
  memory-Faultless = record {
    lookup_clean = λ k t. lookup-FailsOnlyWith now t.0 t.1 k;
    create_clean = λ n t. create-FailsOnlyWith now t.0 t.1 n;
    update_known = λ k p upd t h. update-known now t.0 t.1 k p upd h;
    update_unknown = λ i upd t h. update-unknown now t.0 t.1 i upd h;
    enabled_clean = λ t. enabled-AreViews t.0 t.1;
    kept_wanted = refl;
    checkpoint_clean = λ t. refl;
    set_checkpoint_clean = λ at t. refl;
  }
