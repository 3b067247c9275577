-- ===== src/Directory/Apply.antt =====
-- directory/directory.go, lines 309 to 507: one record of the directory applied to the local base.
pub mod Usable
pub mod Checkpoint
pub mod DryRun
pub mod Counters
pub mod Refines
pub mod Replay
use helppi_scim_go.Prelude.{
  ℕ, ◌+◌, String, ◌+ₛ◌, ◌=ₛ◌, Bool, true, false, not, ◌&&◌, Option, none, some, List, [], ◌∷◌,
  if◌then◌else◌, contains,
}
use helppi_scim_go.Exec.{
  Exec, Result, ok, err, pure, context, message, wrap, is_not_found, is_already_exists, is_conflict,
  ◌>>=◌,
}
use helppi_scim_go.Scim.Types.{User, primary_email}
use helppi_scim_go.Store.Types.{Store, Helpper, NewHelpper, HelpperUpdate}
use helppi_scim_go.Directory.Types.{Syncer, Session, Stats, once, Before, unusable, unseen}
use helppi_scim_go.Directory.Interface.{Directory, State}

abbrev pub dry_run_helpper_id : String
dry_run_helpper_id = "(assigned on a real run)"

-- The reason a record cannot be used, or "" when it is usable; the second argument is `u.Active`.
validate_active : User → Option Bool → String
unfolding primary_email
validate_active u none = "no active flag"
validate_active u (some _) =
    if (u.user_name =ₛ "") && (primary_email u =ₛ "") then "no userName and no email" else ""

unfoldable pub validate : User → String
unfolding validate_active
validate u = if u.id =ₛ "" then "no id" else validate_active u u.active

-- `*u.Active`, where `validate` has refused a nil.
abbrev pub is_active : Option Bool → Bool
is_active none = false
is_active (some b) = b

abbrev pub same : Bool → Bool → Bool
same true b = b
same false b = not b

abbrev pub payload : User → NewHelpper
payload u = record { directory_id = u.id; login = primary_email u; display_name = u.display_name }

abbrev pub desired : User → Bool → HelpperUpdate
desired u active = record {
  enabled = active;
  display_name = u.display_name;
  login = primary_email u;
}

-- What a dry run takes for the helpper that a real run would have created.
abbrev pub placeholder : String → Helpper
placeholder directory_id = record {
  id = dry_run_helpper_id;
  directory_id = directory_id;
  login = "";
  display_name = "";
  enabled = false;
  created_at = 0;
  updated_at = 0;
}

abbrev pub known : User → Helpper → Bool → Before
known u p active = record {
  existed = true;
  enabled_before = p.enabled;
  active_now = active;
  external_id_before = u.external_id;
  malformed = false;
}

-- The counter of `syncState`'s last switch.
abbrev pub changed : Bool → Bool → Stats → Stats
changed true false n = record n { disabled = n.disabled + 1 }
changed false true n = record n { enabled = n.enabled + 1 }
changed _ _ n = record n { updated = n.updated + 1 }

module _ {T : Type 0} where
  abbrev pub tally : (Stats → Stats) → Session T → Session T
  tally f x = record x { stats = f x.stats }

  -- `alertOnce`, on the session alone.
  unfoldable pub alert_once : String → Session T → Session T
  alert_once key x =
      if contains key x.alerted
      then x
      else record x { alerted = key ∷ x.alerted; alerts = once key ∷ x.alerts }

-- A call of the store or of the directory, in the state of a cycle.
module _ {D T A : Type 0} where
  abbrev pub on_store : Exec T A → Exec (State D (Session T)) A
  on_store f w = let (r, t) = f w.rest.store in (r, record w { rest = record w.rest { store = t } })

  abbrev pub on_dir : Exec D A → Exec (State D (Session T)) A
  on_dir f w = let (r, d) = f w.dir in (r, record w { dir = d })

  -- Go on with a value, after a change of the session.
  abbrev pub done : A → (Session T → Session T) → Exec (State D (Session T)) A
  done a f w = (ok a, record w { rest = f w.rest })

module _ {D T : Type 0} (syncer : Syncer) (st : Store T) (dir : Directory D) where
  abbrev pub Action : Type 0 → Type 0
  Action A = Exec (State D (Session T)) A

  -- What `writeBack` does with the answer to its PATCH.
  unfoldable pub patched : String → Result User → Action (Unit {0})
  unfolding alert_once
  patched directory_id (ok _) w =
      done tt (tally (λ n. record n { wrote_back = n.wrote_back + 1 })) w
  patched directory_id (err e) w =
      if is_conflict e
      then done tt
          (λ x.
            alert_once ("conflict:" +ₛ directory_id)
              (tally (λ n. record n { conflicts = n.conflicts + 1 }) x))
          w
      else (err (wrap ("write back helpper_id for " +ₛ directory_id) e), w)

  unfoldable pub write_back : String → String → Action (Unit {0})
  unfolding patched
  write_back directory_id helpper_id w =
      if helpper_id =ₛ ""
      then (err (message ("refusing to write back an empty helpper id for " +ₛ directory_id)), w)
      else if syncer.dry_run
      then done tt (tally (λ n. record n { wrote_back = n.wrote_back + 1 })) w
      else let (r, w') = on_dir (dir.patch_external_id directory_id helpper_id) w in
        patched directory_id r w'

  -- What `ensureHelpper` does with the answer of the store's create.
  unfoldable pub created : User → Result Helpper → Action Helpper
  created u (ok p) w = done p (tally (λ n. record n { created = n.created + 1 })) w
  created u (err e) w =
      if is_already_exists e
      then (let (r, w') = on_store (st.helpper_by_directory_id u.id) w in
          (context ("re-read " +ₛ u.id +ₛ " after create conflict") r, w'))
      else (err (wrap ("create helpper for " +ₛ u.id) e), w)

  unfoldable pub ensure_helpper : User → Action Helpper
  unfolding created primary_email
  ensure_helpper u w =
      if syncer.dry_run
      then done (placeholder u.id) (tally (λ n. record n { created = n.created + 1 })) w
      else let (r, w') = on_store (st.create_helpper (payload u)) w in created u r w'

  unfoldable pub updated : Helpper → Bool → Result (Unit {0}) → Action (Unit {0})
  updated p active (ok _) w = done tt (tally (changed p.enabled active)) w
  updated p active (err e) w = (err (wrap ("update helpper " +ₛ p.id) e), w)

  -- The third argument is `*u.Active`.
  unfoldable pub sync_state : User → Helpper → Bool → Action (Unit {0})
  unfolding updated primary_email
  sync_state u p active w =
      if same p.enabled active && p.display_name =ₛ u.display_name && p.login =ₛ primary_email u
      then done tt (tally (λ n. record n { unchanged = n.unchanged + 1 })) w
      else if syncer.dry_run
      then done tt (tally (changed p.enabled active)) w
      else let (r, w') = on_store (st.update_helpper p.id (desired u active)) w in
        updated p active r w'

  unfoldable pub repair : User → Helpper → Action (Unit {0})
  repair u p w = if u.external_id =ₛ p.id then (ok tt, w) else write_back u.id p.id w

  -- What `apply` does with the answer of the store's lookup.
  unfoldable pub looked_up : User → Bool → Result Helpper → Action Before
  looked_up u active (ok p) w =
      (sync_state u p active >>= λ _. repair u p >>= λ _. pure (known u p active)) w
  looked_up u active (err e) w =
      if is_not_found e
      then if active
        then (ensure_helpper u >>= λ p. write_back u.id p.id >>= λ _. pure (unseen active)) w
        else done (unseen active) (tally (λ n. record n { skipped = n.skipped + 1 })) w
      else (err (wrap ("lookup " +ₛ u.id) e), w)

  unfoldable pub apply : User → Action Before
  apply u w =
      let w₁ = record w { rest = tally (λ n. record n { scanned = n.scanned + 1 }) w.rest } in
      if validate u =ₛ ""
      then (let (r, w₂) = on_store (st.helpper_by_directory_id u.id) w₁ in
          looked_up u (is_active u.active) r w₂)
      else done unusable
          (λ x.
            alert_once ("malformed:" +ₛ u.id)
              (tally (λ n. record n { malformed = n.malformed + 1 }) x))
          w₁
