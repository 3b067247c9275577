-- ===== src/Directory/Apply/Refines.antt =====
-- The store's view across `apply` (directory/directory.go), against the specification in Directory/Spec.
use helppi_scim_go.Prelude.{
  ◌+◌, String, ◌=ₛ◌, true, false, Option, none, some, ◌≡◌, ◌⊎◌, inl, arith, eq_iff, if◌then◌else◌,
}
use helppi_scim_go.Exec.{Result, ok, err, pure, continue, ◌>>=◌}
use helppi_scim_go.Scim.Types.{User, primary_email}
use helppi_scim_go.Store.Types.{Store, Helpper}
use helppi_scim_go.Store.Laws.{StoreLaws, LookupAnswer}
use helppi_scim_go.Directory.Types.{Syncer, Session, unseen}
use helppi_scim_go.Directory.Interface.{Directory, State}
use helppi_scim_go.Directory.Apply.{
  write_back, ensure_helpper, payload, sync_state, desired, repair, looked_up, apply, is_active,
  tally, alert_once,
}
use helppi_scim_go.Directory.Spec.{Account, account, converge, step}

-- What an action has done to an account when it ends: on success what was asked, else nothing.
abbrev Settled : {A : Type 0} → Option Account → Option Account → Option Account → Result A → Type 0
Settled before asked after (ok _) = after ≡ asked
Settled before asked after (err _) = after ≡ before

-- Of several actions in a row: on an error either what was asked or nothing.
abbrev pub Outcome :
    {A : Type 0} → Option Account → Option Account → Option Account → Result A → Type 0
Outcome before asked after (ok _) = after ≡ asked
Outcome before asked after (err _) = (after ≡ before) ⊎ (after ≡ asked)

module _ {D T : Type 0} (syncer : Syncer) (st : Store T) (dir : Directory D) where
  -- A write-back leaves the store alone, whatever the directory answers.
  pub store-write_back :
      (k i : String) (w : State D (Session T))
      → (write_back syncer st dir k i w).1.rest.store ≡ w.rest.store
  unfolding write_back
  store-write_back k i w = ground arith

  pub store-repair :
      (u : User) (p : Helpper) (w : State D (Session T))
      → (repair syncer st dir u p w).1.rest.store ≡ w.rest.store
  unfolding repair
  store-repair u p w = ground (arith, store-write_back u.id p.id w)

module _ {D T : Type 0} (syncer : Syncer) (st : Store T) (dir : Directory D)
    (laws : StoreLaws st) where
  open laws use {view}

  -- The account under a directory id in a state of the cycle.
  abbrev pub account_at : State D (Session T) → String → Option Account
  account_at w j = account (view w.rest.store j)

  -- The account that a usable record asks for under `j`.
  abbrev asked : User → State D (Session T) → String → Option Account
  asked u w j = if u.id =ₛ j then converge u (account_at w j) else account_at w j

  ensure-Settled :
      (u : User) (w : State D (Session T)) (j : String)
      → syncer.dry_run ≡ false
      → view w.rest.store u.id ≡ none
      → is_active u.active ≡ true
      → let (r, w') = ensure_helpper syncer st dir u w in
        Settled (account_at w j) (asked u w j) (account_at w' j) r
  unfolding ensure_helpper
  ensure-Settled u w j real absent active = ground (
    arith,
    laws.create_view (payload u) w.rest.store j,
    laws.create_answer (payload u) w.rest.store,
    eq_iff u.id j,
  )

  sync-Settled :
      (u : User) (p : Helpper) (w : State D (Session T)) (j : String)
      → syncer.dry_run ≡ false
      → view w.rest.store u.id ≡ some p
      → let (r, w') = sync_state syncer st dir u p (is_active u.active) w in
        Settled (account_at w j) (asked u w j) (account_at w' j) r
  unfolding sync_state
  sync-Settled u p w j real found = ground (
    arith,
    laws.update_view u.id p (desired u (is_active u.active)) w.rest.store j,
    eq_iff u.id j,
    eq_iff p.display_name u.display_name,
    eq_iff p.login (primary_email u),
  )

  -- The write-back that follows a creation, from the creation's result on.
  write_back-Outcome :
      (u : User) (j : String) (r : Result Helpper) (w : State D (Session T))
      (before after : Option Account)
      → Settled before after (account_at w j) r
      → let (r', w') =
          continue r
            (λ p. write_back syncer st dir u.id p.id >>= λ _. pure (unseen (is_active u.active)))
            w in
        Outcome before after (account_at w' j) r'
  write_back-Outcome u j (ok p) w before after h =
      ground (arith, store-write_back syncer st dir u.id p.id w)
  write_back-Outcome u j (err e) w before after h = inl h

  looked_up-Outcome :
      (u : User) (r : Result Helpper) (w : State D (Session T)) (j : String)
      → syncer.dry_run ≡ false
      → LookupAnswer (view w.rest.store u.id) r
      → let (r', w') = looked_up syncer st dir u (is_active u.active) r w in
        Outcome (account_at w j) (asked u w j) (account_at w' j) r'
  unfolding looked_up
  looked_up-Outcome u (ok p) w j real found = ground (
    arith,
    sync-Settled u p w j,
    store-repair syncer st dir u p (sync_state syncer st dir u p (is_active u.active) w).1,
  )
  looked_up-Outcome u (err e) w j real missed =
      let (r, w') = ensure_helpper syncer st dir u w in
      ground (
        arith,
        ensure-Settled u w j,
        write_back-Outcome u j r w' (account_at w j) (asked u w j),
        eq_iff u.id j,
      )

  -- A record applied on a real run, with any lawful store and any directory: on success every account
  -- is the one that the specification of the record gives; on an error it is that one or the one before.
  pub apply-Outcome :
      (u : User) (w : State D (Session T)) (j : String)
      → syncer.dry_run ≡ false
      → let (r, w') = apply syncer st dir u w in
        Outcome (account_at w j) (step u j (account_at w j)) (account_at w' j) r
  unfolding apply alert_once
  apply-Outcome u w j real =
      let x = tally (λ n. record n { scanned = n.scanned + 1 }) w.rest in
      let (r, t) = st.helpper_by_directory_id u.id x.store in
      let w₂ = record w { rest = record x { store = t } } in
      ground (
        arith,
        looked_up-Outcome u r w₂ j,
        laws.lookup_view u.id x.store j,
        laws.lookup_view u.id x.store u.id,
        laws.lookup_answer u.id x.store,
      )
