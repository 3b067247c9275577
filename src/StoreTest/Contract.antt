-- ===== src/StoreTest/Contract.antt =====
-- The contract tests on a store with the laws of Store/Laws (store/storetest/storetest.go).
use helppi_scim_go.Prelude.{
  ◌==◌, String, ◌=ₛ◌, Bool, true, false, not, ◌&&◌, none, some, length, ◌≡◌, refl, ap, ◌∙◌, arith,
  eq_iff, eq_refl,
}
use helppi_scim_go.Exec.{Result, ok, err, is_not_found, is_already_exists}
use helppi_scim_go.Scim.Types.{Time}
use helppi_scim_go.Store.Types.{Store, Helpper}
use helppi_scim_go.Store.Laws.{StoreLaws, LookupAnswer, updated_view, amended, moved_mark}
use helppi_scim_go.StoreTest.{
  wanted, new_helpper, renamed, missing_is_not_found, create_then_read, duplicate_rejected,
  concurrent_create, update_applies, update_missing, checkpoint_round_trips, checkpoint_starts_zero,
  enabled_excludes_disabled, contract,
}
use helppi_scim_go.StoreTest.Calls.{
  Faultless, create-new, lookup-known, succeeds-ok, fails_with-clean, create-known,
}
use helppi_scim_go.StoreTest.OneWinner.{race-won}
use helppi_scim_go.StoreTest.Excluded.{enabled_excludes_disabled-passes}

all_nine :
    (a b c d e f g h i : Bool)
    → a ≡ true
    → b ≡ true
    → c ≡ true
    → d ≡ true
    → e ≡ true
    → f ≡ true
    → g ≡ true
    → h ≡ true
    → i ≡ true
    → (a && b && c && d && e && f && g && h && i) ≡ true
all_nine a b c d e f g h i ha hb hc hd he hf hg hh hi = rw (ha, hb, hc, hd, he, hf, hg, hh, hi) refl

module _ {T : Type 0} (st : Store T) (laws : StoreLaws st) (clean : Faultless st laws) where
  missing_is_not_found-passes :
      (t : T) → laws.view t "hlp_nobody" ≡ none → missing_is_not_found st t ≡ true
  unfolding missing_is_not_found
  missing_is_not_found-passes t h =
      fails_with-clean st laws clean is_not_found (st.helpper_by_directory_id "hlp_nobody" t).0
        (clean.lookup_clean "hlp_nobody" t)
        (λ q e.
          unknown (st.helpper_by_directory_id "hlp_nobody" t).0 q e
            (laws.lookup_answer "hlp_nobody" t))
    where
      unknown :
          (r : Result Helpper) (q : Helpper)
          → r ≡ ok q
          → LookupAnswer (laws.view t "hlp_nobody") r
          → ⊥
      unknown (ok p) q e a = ground (arith, a, h)
      unknown (err x) q e a = ground (arith, e)

  duplicate_rejected-passes :
      (t : T) → laws.view t "hlp_dup" ≡ none → duplicate_rejected st t ≡ true
  unfolding duplicate_rejected
  duplicate_rejected-passes t h =
      let n = new_helpper "hlp_dup" in
      let (p, e, v, _, _, _, _, _) = create-new st laws clean n t h in
      succeeds-ok st laws clean (st.create_helpper n t) p _ e (
        fails_with-clean st laws clean is_already_exists
          (st.create_helpper n (st.create_helpper n t).1).0
          (clean.create_clean n (st.create_helpper n t).1)
          (create-known st laws clean n (st.create_helpper n t).1 p v))

  read_back :
      (p : Helpper)
      → p.directory_id ≡ "hlp_a"
      → p.login ≡ "hlp_a@separador.app"
      → p.display_name ≡ "Test hlp_a"
      → (p.id =ₛ p.id
          && p.directory_id =ₛ "hlp_a"
          && p.login =ₛ "hlp_a@separador.app"
          && p.display_name =ₛ "Test hlp_a")
        ≡ true
  read_back p d l s = ground (
    arith,
    eq_refl p.id,
    eq_iff p.directory_id "hlp_a",
    eq_iff p.login "hlp_a@separador.app",
    eq_iff p.display_name "Test hlp_a",
  )

  all_three : (i b r : Bool) → i ≡ false → b ≡ true → r ≡ true → (not i && b && r) ≡ true
  all_three i b r hi hb hr = ground arith

  create_then_read-passes : (t : T) → laws.view t "hlp_a" ≡ none → create_then_read st t ≡ true
  unfolding create_then_read
  create_then_read-passes t h =
      let n = new_helpper "hlp_a" in
      let (p, e, v, d, l, s, b, i) = create-new st laws clean n t h in
      let t' = (st.create_helpper n t).1 in
      succeeds-ok st laws clean (st.create_helpper n t) p _ e (
        all_three (p.id =ₛ "") p.enabled _ i b (
          succeeds-ok st laws clean (st.helpper_by_directory_id "hlp_a" t') p _
            (lookup-known st laws clean "hlp_a" t' p v) (read_back p d l s)))

  checkpoint_round_trips-passes : (t : T) → checkpoint_round_trips st t ≡ true
  unfolding checkpoint_round_trips
  checkpoint_round_trips-passes t =
      let t' = (st.set_checkpoint wanted t).1 in
      let written = clean.set_checkpoint_clean wanted t in
      let mark : laws.mark t' ≡ wanted =
        laws.set_checkpoint_mark wanted t
        ∙ ap (moved_mark (laws.kept wanted) (laws.mark t)) written
        ∙ clean.kept_wanted in
      succeeds-ok st laws clean (st.set_checkpoint wanted t) tt _ written (
        succeeds-ok st laws clean (st.checkpoint t') (laws.mark t') _ (clean.checkpoint_clean t')
          (ground (arith, mark)))

  checkpoint_starts_zero-passes : (t : T) → laws.mark t ≡ 0 → checkpoint_starts_zero st t ≡ true
  unfolding checkpoint_starts_zero
  checkpoint_starts_zero-passes t h =
      succeeds-ok st laws clean (st.checkpoint t) (laws.mark t) _ (clean.checkpoint_clean t)
        (ground (arith, h))

  concurrent_create-passes : (t : T) → laws.view t "hlp_race" ≡ none → concurrent_create st t ≡ true
  unfolding concurrent_create
  concurrent_create-passes t h =
      let n = new_helpper "hlp_race" in
      let (p, e, v, _, _, _, _, _) = create-new st laws clean n t h in
      ap (λ r. r.unknown == 0 && r.wins == 1 && length r.ids == 1)
        (race-won st laws clean 7 n t p e v)

  updated_back :
      (p : Helpper) (at : Time)
      → p.directory_id ≡ "hlp_upd"
      → (let got = amended p renamed at in
          not got.enabled
          && got.display_name =ₛ "Renamed R."
          && got.login =ₛ "new@separador.app"
          && got.id =ₛ p.id
          && got.directory_id =ₛ "hlp_upd")
        ≡ true
  updated_back p at d = ground (arith, eq_refl p.id, eq_iff p.directory_id "hlp_upd")

  update_applies-passes : (t : T) → laws.view t "hlp_upd" ≡ none → update_applies st t ≡ true
  unfolding update_applies
  update_applies-passes t h =
      let n = new_helpper "hlp_upd" in
      let (p, e, v, d, _, _, _, _) = create-new st laws clean n t h in
      let t₁ = (st.create_helpper n t).1 in
      let t₂ = (st.update_helpper p.id renamed t₁).1 in
      let written = clean.update_known "hlp_upd" p renamed t₁ v in
      let got = amended p renamed (laws.stamp t₁) in
      let found : laws.view t₂ "hlp_upd" ≡ some got =
        laws.update_view "hlp_upd" p renamed t₁ "hlp_upd" v
        ∙ ap (updated_view "hlp_upd" got "hlp_upd" (laws.view t₁ "hlp_upd")) written in
      succeeds-ok st laws clean (st.create_helpper n t) p _ e (
        succeeds-ok st laws clean (st.update_helpper p.id renamed t₁) tt _ written (
          succeeds-ok st laws clean (st.helpper_by_directory_id "hlp_upd" t₂) got _
            (lookup-known st laws clean "hlp_upd" t₂ got found) (updated_back p (laws.stamp t₁) d)))

  update_missing-passes :
      (t : T) → ((k : String) → laws.view t k ≡ none) → update_missing st t ≡ true
  unfolding update_missing
  update_missing-passes t empty =
      clean.update_unknown "no-such-id" (record { enabled = true; display_name = ""; login = "" }) t
        (λ k p h. absurd (let gone = empty k in ground (arith, gone, h)))

  -- A store with the laws and without faults passes the contract tests on a fresh, empty store, all nine of them: the
  -- missing helper, the creation and its duplicate, the race of eight workers for one identity, of which exactly one
  -- wins, both updates, the list of enabled helppers without the disabled one, and the checkpoint, at its start and
  -- written.
  pub contract-passes :
      (fresh : T)
      → ((k : String) → laws.view fresh k ≡ none)
      → laws.mark fresh ≡ 0
      → contract st fresh ≡ true
  unfolding contract
  contract-passes fresh empty zero_mark =
      all_nine (missing_is_not_found st fresh) (create_then_read st fresh)
        (duplicate_rejected st fresh) (concurrent_create st fresh) (update_applies st fresh)
        (update_missing st fresh) (enabled_excludes_disabled st fresh)
        (checkpoint_round_trips st fresh) (checkpoint_starts_zero st fresh)
        (missing_is_not_found-passes fresh (empty "hlp_nobody"))
        (create_then_read-passes fresh (empty "hlp_a"))
        (duplicate_rejected-passes fresh (empty "hlp_dup"))
        (concurrent_create-passes fresh (empty "hlp_race"))
        (update_applies-passes fresh (empty "hlp_upd")) (update_missing-passes fresh empty)
        (enabled_excludes_disabled-passes st laws clean fresh empty)
        (checkpoint_round_trips-passes fresh) (checkpoint_starts_zero-passes fresh zero_mark)
