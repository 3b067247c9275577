-- ===== src/StoreTest/Excluded.antt =====
-- The case of store/storetest/storetest.go on the list of enabled helppers.
use helppi_scim_go.Prelude.{
  String, ◌=ₛ◌, true, false, Option, none, some, List, [], ◌∷◌, map, ◌≡◌, ap, ◌∙◌, arith, eq_iff,
  contains,
}
use helppi_scim_go.Exec.{Result, ok, err}
use helppi_scim_go.Store.Types.{Store, Helpper, NewHelpper}
use helppi_scim_go.Store.Laws.{
  StoreLaws, AreViews, ListAnswer, is_enabled, amended, created_view, updated_view,
}
use helppi_scim_go.StoreTest.{new_helpper, disabled, succeeds, is_only, enabled_excludes_disabled}
use helppi_scim_go.StoreTest.Calls.{Faultless, Lists, create-new, succeeds-ok}

-- Where one view is enabled and no other, a list of the enabled views holds it alone.
is_only-AreViews :
    (v : String → Option Helpper) (on : Helpper) (ps : List Helpper)
    → AreViews v ps
    → ((j : String) → contains j (map (λ p. p.directory_id) ps) ≡ is_enabled (v j))
    → v on.directory_id ≡ some on
    → on.enabled ≡ true
    → ((j : String) → (on.directory_id =ₛ j) ≡ false → is_enabled (v j) ≡ false)
    → is_only on.id ps ≡ true
unfolding contains
is_only-AreViews v on [] views all own enabled others = ground (arith, all on.directory_id)
is_only-AreViews v on (p ∷ []) views all own enabled others = ground (
  arith,
  all p.directory_id,
  others p.directory_id,
  eq_iff p.directory_id p.directory_id,
  eq_iff on.directory_id p.directory_id,
  eq_iff p.id on.id,
)
is_only-AreViews v on (p ∷ q ∷ ps) views all own enabled others = ground (
  arith,
  all p.directory_id,
  all q.directory_id,
  others p.directory_id,
  others q.directory_id,
  eq_iff p.directory_id p.directory_id,
  eq_iff q.directory_id q.directory_id,
  eq_iff on.directory_id p.directory_id,
  eq_iff on.directory_id q.directory_id,
  eq_iff q.directory_id p.directory_id,
)

module _ {T : Type 0} (st : Store T) (laws : StoreLaws st) (clean : Faultless st laws) where
  create-view :
      (n : NewHelpper) (t : T) (p : Helpper) (j : String)
      → (st.create_helpper n t).0 ≡ ok p
      → laws.view (st.create_helpper n t).1 j ≡ created_view n j (laws.view t j) (ok p)
  create-view n t p j e = laws.create_view n t j ∙ ap (created_view n j (laws.view t j)) e

  listed :
      (x : Result (List Helpper) × T) (t : T) (on : Helpper)
      → Lists (laws.view t) x.0
      → ((j : String) → ListAnswer j (laws.view t j) x.0)
      → laws.view t on.directory_id ≡ some on
      → on.enabled ≡ true
      → ((j : String) → (on.directory_id =ₛ j) ≡ false → is_enabled (laws.view t j) ≡ false)
      → succeeds x (λ ps t'. is_only on.id ps) ≡ true
  listed (ok ps, t') t on views all own enabled others =
      is_only-AreViews (laws.view t) on ps views all own enabled others
  listed (err e, t') t on views all own enabled others = absurd views

  pub enabled_excludes_disabled-passes :
      (t : T) → ((k : String) → laws.view t k ≡ none) → enabled_excludes_disabled st t ≡ true
  unfolding enabled_excludes_disabled
  enabled_excludes_disabled-passes t empty =
      let n = new_helpper "hlp_on" in
      let m = new_helpper "hlp_off" in
      let (on, e, _, d, _, _, b, _) = create-new st laws clean n t (empty "hlp_on") in
      let t₁ = (st.create_helpper n t).1 in
      let v₁ = λ (j : String). create-view n t on j e in
      let (off, f, own, _, _, _, _, _) =
        create-new st laws clean m t₁ (v₁ "hlp_off" ∙ empty "hlp_off") in
      let t₂ = (st.create_helpper m t₁).1 in
      let v₂ = λ (j : String). create-view m t₁ off j f in
      let written = clean.update_known "hlp_off" off disabled t₂ own in
      let t₃ = (st.update_helpper off.id disabled t₂).1 in
      let gone = amended off disabled (laws.stamp t₂) in
      let v₃ : (j : String)
          → laws.view t₃ j ≡ updated_view "hlp_off" gone j (laws.view t₂ j) (ok tt) =
        λ j.
          laws.update_view "hlp_off" off disabled t₂ j own
          ∙ ap (updated_view "hlp_off" gone j (laws.view t₂ j)) written in
      succeeds-ok st laws clean (st.create_helpper n t) on _ e (
        succeeds-ok st laws clean (st.create_helpper m t₁) off _ f (
          succeeds-ok st laws clean (st.update_helpper off.id disabled t₂) tt _ written (
            listed (st.enabled_helppers t₃) t₃ on (clean.enabled_clean t₃) (laws.enabled_answer t₃)
              (ap (laws.view t₃) d ∙ v₃ "hlp_on" ∙ v₂ "hlp_on" ∙ v₁ "hlp_on") b
              (λ j h. ground (arith, h, d, v₁ j, v₂ j, v₃ j, empty j)))))
