-- ===== src/StoreTest/OneWinner.antt =====
-- The race of workers for one identity has one winner (store/storetest/storetest.go).
use helppi_scim_go.Prelude.{ℕ, zero, suc, true, some, [], ◌∷◌, contains, ◌≡◌, ◌≢◌, refl, ap, ◌∙◌}
use helppi_scim_go.Exec.{Result, ok, err, Error, is_already_exists}
use helppi_scim_go.Store.Types.{Store, Helpper, NewHelpper}
use helppi_scim_go.Store.Laws.{StoreLaws, created_view}
use helppi_scim_go.StoreTest.{Race, no_race, race, joined}
use helppi_scim_go.StoreTest.Calls.{FailsOnlyWith, Faultless, create-known}

module _ {T : Type 0} (st : Store T) (laws : StoreLaws st) (clean : Faultless st laws) where
  known_error : (e : Error) (r : Race) → is_already_exists e ≡ true → joined (err e) r ≡ r
  unfolding joined
  known_error e r c = rw c refl

  -- Once there is a helper under the id, no worker of a race wins.
  race-lost :
      (k : ℕ) (n : NewHelpper) (t : T) (p : Helpper) (r : Race)
      → laws.view t n.directory_id ≡ some p
      → race st k n t r ≡ r
  unfolding race
  race-lost zero n t p r h = refl
  race-lost (suc k) n t p r h =
      on_answer (st.create_helpper n t).0 (clean.create_clean n t)
        (create-known st laws clean n t p h) (laws.create_view n t n.directory_id)
        (race-lost k n (st.create_helpper n t).1 p r)
    where
      on_answer :
          (a : Result Helpper)
          → FailsOnlyWith is_already_exists a
          → ((q : Helpper) → a ≢ ok q)
          → laws.view (st.create_helpper n t).1 n.directory_id
            ≡ created_view n n.directory_id (laws.view t n.directory_id) a
          → (laws.view (st.create_helpper n t).1 n.directory_id ≡ some p
              → race st k n (st.create_helpper n t).1 r ≡ r)
          → race st k n (st.create_helpper n t).1 (joined a r) ≡ r
      on_answer (ok q) c lost v again = absurd (lost q refl)
      on_answer (err e) c lost v again =
          ap (race st k n (st.create_helpper n t).1) (known_error e r c) ∙ again (v ∙ h)

  pub race-won :
      (k : ℕ) (n : NewHelpper) (t : T) (p : Helpper)
      → (st.create_helpper n t).0 ≡ ok p
      → laws.view (st.create_helpper n t).1 n.directory_id ≡ some p
      → race st (suc k) n t no_race ≡ record { wins = 1; ids = p.id ∷ []; unknown = 0 }
  unfolding race joined contains
  race-won k n t p e v =
      ap (λ a. race st k n (st.create_helpper n t).1 (joined a no_race)) e
      ∙ race-lost k n (st.create_helpper n t).1 p
          (record { wins = 1; ids = p.id ∷ []; unknown = 0 }) v
