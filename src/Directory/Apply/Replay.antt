-- ===== src/Directory/Apply/Replay.antt =====
-- `apply` (directory/directory.go) on a record that was applied before.
use helppi_scim_go.Prelude.{
  ℕ, ◌+◌, String, ◌=ₛ◌, true, false, Option, none, some, ◌≡◌, inl, inr, arith, ap, subst, sym,
  Bool-cases, eq_iff,
}
use helppi_scim_go.Exec.{Result, ok, err}
use helppi_scim_go.Scim.Types.{User, primary_email}
use helppi_scim_go.Store.Types.{Store, Helpper}
use helppi_scim_go.Store.Laws.{StoreLaws, LookupAnswer}
use helppi_scim_go.Directory.Types.{Syncer, Session, Stats, Before}
use helppi_scim_go.Directory.Interface.{Directory, State}
use helppi_scim_go.Directory.Apply.{
  write_back, patched, sync_state, repair, looked_up, apply, is_active, tally, alert_once, validate,
}
use helppi_scim_go.Directory.Apply.Refines.{account_at, apply-Outcome, store-repair}
use helppi_scim_go.Directory.Spec.{Account, account, account_of, wanted, step}

-- An account that is as the record asks for it.
abbrev Converged : User → Option Account → Type 0
Converged u (some x) = x ≡ wanted u
Converged u none = is_active u.active ≡ false

-- The counters of the accounts that were created or changed.
abbrev pub writes : Stats → ℕ × ℕ × ℕ × ℕ
writes n = (n.created, n.updated, n.enabled, n.disabled)

step-Converged :
    (u : User) (a : Option Account) → (validate u =ₛ "") ≡ true → Converged u (step u u.id a)
step-Converged u none h = ground (arith, eq_iff u.id u.id)
step-Converged u (some x) h = ground (arith, eq_iff u.id u.id)

module _ {D T : Type 0} (syncer : Syncer) (st : Store T) (dir : Directory D) where
  sync-unchanged :
      (u : User) (p : Helpper) (w : State D (Session T))
      → account_of p ≡ wanted u
      → sync_state syncer st dir u p (is_active u.active) w
        ≡ (ok tt, record w { rest = tally (λ n. record n { unchanged = n.unchanged + 1 }) w.rest })
  unfolding sync_state
  sync-unchanged u p w h = ground (
    arith,
    ap (λ (x : Account). x.may_work) h,
    ap (λ (x : Account). x.alias) h,
    ap (λ (x : Account). x.shown_as) h,
    eq_iff p.display_name u.display_name,
    eq_iff p.login (primary_email u),
  )

  writes-repair :
      (u : User) (p : Helpper) (w : State D (Session T))
      → writes (repair syncer st dir u p w).1.rest.stats ≡ writes w.rest.stats
  unfolding repair write_back patched alert_once
  writes-repair u p w = ground arith

module _ {D T : Type 0} (syncer : Syncer) (st : Store T) (dir : Directory D)
    (laws : StoreLaws st) where
  -- The second state has the store's view and the counters of the first.
  abbrev pub SameBase : String → State D (Session T) → State D (Session T) → Type 0
  SameBase j w v =
      (laws.view v.rest.store j ≡ laws.view w.rest.store j)
      × (writes v.rest.stats ≡ writes w.rest.stats)

  looked_up-SameBase :
      (u : User) (r : Result Helpper) (w : State D (Session T)) (j : String)
      → LookupAnswer (laws.view w.rest.store u.id) r
      → Converged u (account_at syncer st dir laws w u.id)
      → SameBase j w (looked_up syncer st dir u (is_active u.active) r w).1
  unfolding looked_up
  looked_up-SameBase u (ok p) w j found h =
      let q : account_of p ≡ wanted u = subst (λ v. Converged u (account v)) found h in
      let v = record w { rest = tally (λ n. record n { unchanged = n.unchanged + 1 }) w.rest } in
      rw (sync-unchanged syncer st dir u p w q)
        (ground (arith, store-repair syncer st dir u p v, writes-repair syncer st dir u p v))
  looked_up-SameBase u (err e) w j missed h =
      ground (
        arith,
        λ (n : laws.view w.rest.store u.id ≡ none). subst (λ v. Converged u (account v)) n h,
      )

  -- A usable record that the base already agrees with.
  apply-SameBase :
      (u : User) (w : State D (Session T)) (j : String)
      → ((validate u =ₛ "") ≡ true → Converged u (account_at syncer st dir laws w u.id))
      → SameBase j w (apply syncer st dir u w).1
  unfolding apply alert_once
  apply-SameBase u w j h =
      let x = tally (λ n. record n { scanned = n.scanned + 1 }) w.rest in
      let (r, t) = st.helpper_by_directory_id u.id x.store in
      let w₂ = record w { rest = record x { store = t } } in
      let own = laws.lookup_view u.id x.store u.id in
      elim (Bool-cases (validate u =ₛ "")) [
        | inl good ↦ ground (
          arith,
          looked_up-SameBase u r w₂ j
              (subst (λ v. LookupAnswer v r) (sym own) (laws.lookup_answer u.id x.store))
              (subst (λ v. Converged u (account v)) (sym own) (h good)),
          laws.lookup_view u.id x.store j,
        )
        | inr bad ↦ ground arith
      ]

  -- A record that a real run has applied without an error: when it is applied again, however that ends, the store's
  -- view of every directory id and the counters of created and changed accounts stay as they are.
  pub apply-again :
      (u : User) (w : State D (Session T)) (j : String)
      → syncer.dry_run ≡ false
      → (b : Before) → (apply syncer st dir u w).0 ≡ ok b
      → SameBase j (apply syncer st dir u w).1 (apply syncer st dir u (apply syncer st dir u w).1).1
  apply-again u w j real b success =
      let (r, v) = apply syncer st dir u w in
      let a = account_at syncer st dir laws w u.id in
      let e : account_at syncer st dir laws v u.id ≡ step u u.id a =
        ground (arith, apply-Outcome syncer st dir laws u w u.id) in
      apply-SameBase u v j (λ good. subst (Converged u) (sym e) (step-Converged u a good))
