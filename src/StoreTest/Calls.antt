-- ===== src/StoreTest/Calls.antt =====
-- What the calls of a store with the laws and without faults return (store/storetest/storetest.go).
use helppi_scim_go.Prelude.{
  String, ◌=ₛ◌, Bool, true, false, Option, none, some, List, ◌≡◌, ◌≢◌, refl, ◌∙◌, arith, eq_refl,
}
use helppi_scim_go.Exec.{Result, ok, err, Error, is_not_found, is_already_exists}
use helppi_scim_go.Scim.Types.{Time}
use helppi_scim_go.Store.Types.{Store, Helpper, NewHelpper, HelpperUpdate}
use helppi_scim_go.Store.Laws.{StoreLaws, AreViews, CreateAnswer, LookupAnswer, created_view}
use helppi_scim_go.StoreTest.{wanted, succeeds, fails_with}

-- A call that failed did so with an error of a kind.
abbrev pub FailsOnlyWith : {A : Type 0} → (Error → Bool) → Result A → Type 0
FailsOnlyWith kind (ok a) = Unit {0}
FailsOnlyWith kind (err e) = kind e ≡ true

-- A list that was answered and is of the views.
abbrev pub Lists : (String → Option Helpper) → Result (List Helpper) → Type 0
Lists view (ok ps) = AreViews view ps
Lists view (err e) = ⊥

-- A store without faults: its errors are the two of the contract, each where the contract has it, and its list
-- of enabled helppers holds each as it stands in the store, and once.
pub record Faultless {T : Type 0} (st : Store T) (laws : StoreLaws st) : Type 0 where
  pub lookup_clean :
      (k : String) (t : T) → FailsOnlyWith is_not_found (st.helpper_by_directory_id k t).0
  pub create_clean :
      (n : NewHelpper) (t : T) → FailsOnlyWith is_already_exists (st.create_helpper n t).0
  pub update_known :
      (k : String) (p : Helpper) (upd : HelpperUpdate) (t : T)
      → laws.view t k ≡ some p
      → (st.update_helpper p.id upd t).0 ≡ ok tt
  pub update_unknown :
      (i : String) (upd : HelpperUpdate) (t : T)
      → ((k : String) (p : Helpper) → laws.view t k ≡ some p → (p.id =ₛ i) ≡ false)
      → fails_with is_not_found (st.update_helpper i upd t).0 ≡ true
  pub enabled_clean : (t : T) → Lists (laws.view t) (st.enabled_helppers t).0
  pub checkpoint_clean : (t : T) → (st.checkpoint t).0 ≡ ok (laws.mark t)
  -- The instant of the test is in whole seconds.
  pub kept_wanted : laws.kept wanted ≡ wanted
  pub set_checkpoint_clean : (at : Time) (t : T) → (st.set_checkpoint at t).0 ≡ ok tt

module _ {T : Type 0} (st : Store T) (laws : StoreLaws st) (clean : Faultless st laws) where
  -- A create where there is no helper under the id.
  pub create-new :
      (n : NewHelpper) (t : T)
      → laws.view t n.directory_id ≡ none
      → (p : Helpper) × ((st.create_helpper n t).0 ≡ ok p)
        × (laws.view (st.create_helpper n t).1 n.directory_id ≡ some p)
        × (p.directory_id ≡ n.directory_id)
        × (p.login ≡ n.login)
        × (p.display_name ≡ n.display_name)
        × (p.enabled ≡ true)
        × ((p.id =ₛ "") ≡ false)
  create-new n t absent =
      on_answer (st.create_helpper n t).0 refl (laws.create_answer n t) (clean.create_clean n t)
        (laws.create_view n t n.directory_id)
    where
      on_answer :
          (r : Result Helpper)
          → (st.create_helpper n t).0 ≡ r
          → CreateAnswer n (laws.view t n.directory_id) r
          → FailsOnlyWith is_already_exists r
          → laws.view (st.create_helpper n t).1 n.directory_id
            ≡ created_view n n.directory_id (laws.view t n.directory_id) r
          → (p : Helpper) × ((st.create_helpper n t).0 ≡ ok p)
            × (laws.view (st.create_helpper n t).1 n.directory_id ≡ some p)
            × (p.directory_id ≡ n.directory_id)
            × (p.login ≡ n.login)
            × (p.display_name ≡ n.display_name)
            × (p.enabled ≡ true)
            × ((p.id =ₛ "") ≡ false)
      on_answer (ok p) e (a, d, l, s, b, i) c v =
          (p, e, v ∙ ground (arith, eq_refl n.directory_id), d, l, s, b, i)
      on_answer (err e) q a c v = absurd (a c absent)

  pub lookup-known :
      (k : String) (t : T) (p : Helpper)
      → laws.view t k ≡ some p
      → (st.helpper_by_directory_id k t).0 ≡ ok p
  lookup-known k t p h =
      on_answer (st.helpper_by_directory_id k t).0 (laws.lookup_answer k t) (clean.lookup_clean k t)
    where
      on_answer :
          (r : Result Helpper)
          → LookupAnswer (laws.view t k) r
          → FailsOnlyWith is_not_found r
          → r ≡ ok p
      on_answer (ok q) a c = ground (arith, a, h)
      on_answer (err e) a c = absurd (let gone = a c in ground (arith, gone, h))

  -- A call that has a result succeeds, and the rest of the case decides.
  pub succeeds-ok :
      {A : Type 0} (x : Result A × T) (a : A) (f : A → T → Bool)
      → x.0 ≡ ok a
      → f a x.1 ≡ true
      → succeeds x f ≡ true
  succeeds-ok (ok b, t) a f h g = ground (arith, h, g)
  succeeds-ok (err e, t) a f h g = absurd (ground (arith, h))

  pub fails_with-clean :
      {A : Type 0} (kind : Error → Bool) (r : Result A)
      → FailsOnlyWith kind r
      → ((a : A) → r ≢ ok a)
      → fails_with kind r ≡ true
  fails_with-clean kind (ok a) c no_answer = absurd (no_answer a refl)
  fails_with-clean kind (err e) c no_answer = c

  -- A create where there is a helper under the id.
  pub create-known :
      (n : NewHelpper) (t : T) (p : Helpper)
      → laws.view t n.directory_id ≡ some p
      → (q : Helpper) → (st.create_helpper n t).0 ≢ ok q
  create-known n t p h q e = taken (st.create_helpper n t).0 e (laws.create_answer n t)
    where
      taken : (r : Result Helpper) → r ≡ ok q → CreateAnswer n (laws.view t n.directory_id) r → ⊥
      taken (ok p') e a = let gone = a.0 in ground (arith, gone, h)
      taken (err x) e a = ground (arith, e)
