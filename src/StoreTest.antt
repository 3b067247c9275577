-- ===== src/StoreTest.antt =====
-- store/storetest/storetest.go: the contract tests for stores. A case is whether it passes on a fresh store; the text of a
-- failure is left out.
pub mod Calls
pub mod OneWinner
pub mod Excluded
pub mod Contract
use helppi_scim_go.Prelude.{
  ℕ, zero, suc, ◌+◌, ◌==◌, String, ◌=ₛ◌, ◌+ₛ◌, Bool, true, false, not, ◌&&◌, List, [], ◌∷◌,
  contains, length, if◌then◌else◌,
}
use helppi_scim_go.Exec.{Exec, Result, ok, err, Error, is_not_found, is_already_exists}
use helppi_scim_go.Scim.Types.{Time}
use helppi_scim_go.Store.Types.{Store, Helpper, NewHelpper, HelpperUpdate}
use helppi_scim_go.Directory.Walk.{is_zero}

abbrev pub new_helpper : String → NewHelpper
new_helpper id = record {
  directory_id = id;
  login = id +ₛ "@separador.app";
  display_name = "Test " +ₛ id;
}

-- A call that has to succeed, and the rest of the case.
abbrev pub succeeds {ℓ} : {A T : Type ℓ} → Result A × T → (A → T → Bool) → Bool
succeeds (ok a, t) f = f a t
succeeds (err e, t) f = false

-- A call that has to fail with an error of a kind.
abbrev pub fails_with {ℓ} : {A : Type ℓ} → (Error → Bool) → Result A → Bool
fails_with kind (ok a) = false
fails_with kind (err e) = kind e

-- What the workers of a race have seen.
pub record Race : Type 0 where
  pub wins : ℕ
  pub ids : List String
  pub unknown : ℕ

abbrev pub no_race : Race
no_race = record { wins = 0; ids = []; unknown = 0 }

abbrev pub add_id : String → List String → List String
add_id i ids = if contains i ids then ids else i ∷ ids

unfoldable pub joined : Result Helpper → Race → Race
joined (ok p) r = record r { wins = r.wins + 1; ids = add_id p.id r.ids }
joined (err e) r = if is_already_exists e then r else record r { unknown = r.unknown + 1 }

-- 2026-08-27 20:15:32 UTC, in nanoseconds from Go's zero time.
abbrev pub wanted : Time
wanted = 63923458532000000000

abbrev pub renamed : HelpperUpdate
renamed = record { enabled = false; display_name = "Renamed R."; login = "new@separador.app" }

abbrev pub disabled : HelpperUpdate
disabled = record {
  enabled = false;
  display_name = "Test hlp_off";
  login = "hlp_off@separador.app";
}

abbrev pub is_only : String → List Helpper → Bool
is_only id [] = false
is_only id (p ∷ []) = p.id =ₛ id
is_only id (p ∷ q ∷ ps) = false

module _ {T : Type 0} (st : Store T) where
  -- So many workers that create one identity; a store serves one call after the other, and the calls are all the same.
  unfoldable pub race : ℕ → NewHelpper → T → Race → Race
  unfolding joined
  race zero n t r = r
  race (suc k) n t r = let (a, t') = st.create_helpper n t in race k n t' (joined a r)

  module _ (fresh : T) where
    unfoldable pub missing_is_not_found : Bool
    missing_is_not_found = fails_with is_not_found (st.helpper_by_directory_id "hlp_nobody" fresh).0

    unfoldable pub create_then_read : Bool
    create_then_read = succeeds (st.create_helpper (new_helpper "hlp_a") fresh) (λ created t.
        not (created.id =ₛ "")
        && created.enabled
        && succeeds (st.helpper_by_directory_id "hlp_a" t) (λ got t'.
          got.id =ₛ created.id
          && got.directory_id =ₛ "hlp_a"
          && got.login =ₛ "hlp_a@separador.app"
          && got.display_name =ₛ "Test hlp_a"))

    unfoldable pub duplicate_rejected : Bool
    duplicate_rejected =
        succeeds (st.create_helpper (new_helpper "hlp_dup") fresh)
          (λ p t. fails_with is_already_exists (st.create_helpper (new_helpper "hlp_dup") t).0)

    unfoldable pub concurrent_create : Bool
    unfolding race
    concurrent_create =
        let r = race 8 (new_helpper "hlp_race") fresh no_race in
        r.unknown == 0 && r.wins == 1 && length r.ids == 1

    unfoldable pub update_applies : Bool
    update_applies = succeeds (st.create_helpper (new_helpper "hlp_upd") fresh) (λ p t.
        succeeds (st.update_helpper p.id renamed t) (λ u t'.
          succeeds (st.helpper_by_directory_id "hlp_upd" t') (λ got t''.
            not got.enabled
            && got.display_name =ₛ "Renamed R."
            && got.login =ₛ "new@separador.app"
            && got.id =ₛ p.id
            && got.directory_id =ₛ "hlp_upd")))

    unfoldable pub update_missing : Bool
    update_missing =
        fails_with is_not_found
          (st.update_helpper "no-such-id" (record { enabled = true; display_name = ""; login = "" })
            fresh).0

    unfoldable pub enabled_excludes_disabled : Bool
    enabled_excludes_disabled = succeeds (st.create_helpper (new_helpper "hlp_on") fresh) (λ on t₁.
        succeeds (st.create_helpper (new_helpper "hlp_off") t₁) (λ off t₂.
          succeeds (st.update_helpper off.id disabled t₂)
            (λ u t₃. succeeds (st.enabled_helppers t₃) (λ ps t₄. is_only on.id ps))))

    unfoldable pub checkpoint_round_trips : Bool
    checkpoint_round_trips =
        succeeds (st.set_checkpoint wanted fresh)
          (λ u t. succeeds (st.checkpoint t) (λ got t'. got == wanted))

    unfoldable pub checkpoint_starts_zero : Bool
    checkpoint_starts_zero = succeeds (st.checkpoint fresh) (λ cp t. is_zero cp)

    -- `Run`
    unfoldable pub contract : Bool
    unfolding missing_is_not_found create_then_read duplicate_rejected concurrent_create
        update_applies update_missing enabled_excludes_disabled checkpoint_round_trips
        checkpoint_starts_zero
    contract =
        missing_is_not_found && create_then_read && duplicate_rejected && concurrent_create
        && update_applies && update_missing && enabled_excludes_disabled && checkpoint_round_trips
        && checkpoint_starts_zero
