-- ===== src/Directory/Apply/Counters.antt =====
-- What one record adds to the cycle's counters.
use helppi_scim_go.Prelude.{ℕ, String, ◌+◌, ◌≤◌, none, ◌≡◌, arith, if◌then◌else◌}
use helppi_scim_go.Exec.{Result, ok, err, pure, continue, ◌>>=◌}
use helppi_scim_go.Scim.Types.{User}
use helppi_scim_go.Store.Types.{Store, Helpper}
use helppi_scim_go.Store.Laws.{StoreLaws, LookupAnswer}
use helppi_scim_go.Directory.Types.{Syncer, Session, Stats, Before, unseen}
use helppi_scim_go.Directory.Interface.{Directory, State}
use helppi_scim_go.Directory.Apply.{
  write_back, ensure_helpper, payload, sync_state, repair, looked_up, apply, is_active, tally,
  alert_once,
}
use helppi_scim_go.Directory.Apply.Usable.{usable}

-- The records that a counter of the outcome accounts for.
abbrev pub accounted : Stats → ℕ
accounted s = s.created + s.enabled + s.disabled + s.updated + s.unchanged + s.skipped + s.malformed

-- The write-backs that were answered.
abbrev pub answered : Stats → ℕ
answered s = s.wrote_back + s.conflicts

-- `s'` is `s` with `n` more records accounted for and at most `k` more write-backs.
record Adds (n k : ℕ) (s s' : Stats) : Type 0 where
  scanned_same : s'.scanned ≡ s.scanned
  malformed_same : s'.malformed ≡ s.malformed
  accounts : accounted s' ≡ accounted s + n
  answers_le : answered s' ≤ answered s + k
  answers_ge : answered s ≤ answered s'

abbrev AddsOk : {A : Type 0} → Result A → ℕ → ℕ → Stats → Stats → Type 0
AddsOk (ok _) n k s s' = Adds n k s s'
AddsOk (err _) n k s s' = Unit

module _ {D T : Type 0} (syncer : Syncer) (st : Store T) (dir : Directory D) where
  write_back-Adds :
      (k i : String) (w : State D (Session T))
      → Adds 0 1 w.rest.stats (write_back syncer st dir k i w).1.rest.stats
  unfolding write_back alert_once
  write_back-Adds k i w = ground arith

  repair-Adds :
      (u : User) (p : Helpper) (w : State D (Session T))
      → Adds 0 1 w.rest.stats (repair syncer st dir u p w).1.rest.stats
  unfolding repair
  repair-Adds u p w = ground (arith, write_back-Adds u.id p.id w)

  sync-Adds :
      (u : User) (p : Helpper) (w : State D (Session T))
      → let (r, w') = sync_state syncer st dir u p (is_active u.active) w in
        AddsOk r 1 0 w.rest.stats w'.rest.stats
  unfolding sync_state
  sync-Adds u p w = ground arith

  module _ (laws : StoreLaws st) where
    ensure-Adds :
        (u : User) (w : State D (Session T))
        → laws.view w.rest.store u.id ≡ none
        → let (r, w') = ensure_helpper syncer st dir u w in AddsOk r 1 0 w.rest.stats w'.rest.stats
    unfolding ensure_helpper
    ensure-Adds u w absent = ground (arith, laws.create_answer (payload u) w.rest.store)

    write_back-then :
        (u : User) (r : Result Helpper) (w v : State D (Session T))
        → AddsOk r 1 0 v.rest.stats w.rest.stats
        → let (r', w') =
            continue r
              (λ p. write_back syncer st dir u.id p.id >>= λ _. pure (unseen (is_active u.active)))
              w in
          AddsOk r' 1 1 v.rest.stats w'.rest.stats
    write_back-then u (ok p) w v h = ground (arith, write_back-Adds u.id p.id w)
    write_back-then u (err e) w v h = tt

    looked_up-Adds :
        (u : User) (r : Result Helpper) (w : State D (Session T))
        → LookupAnswer (laws.view w.rest.store u.id) r
        → let (r', w') = looked_up syncer st dir u (is_active u.active) r w in
          AddsOk r' 1 1 w.rest.stats w'.rest.stats
    unfolding looked_up
    looked_up-Adds u (ok p) w h = ground (
      arith,
      sync-Adds u p w,
      repair-Adds u p (sync_state syncer st dir u p (is_active u.active) w).1,
    )
    looked_up-Adds u (err e) w h =
        let (r, w') = ensure_helpper syncer st dir u w in
        ground (arith, ensure-Adds u w, write_back-then u r w' w)

    -- What a record that was applied adds: one to the records scanned and accounted for, one to the
    -- malformed ones if it was unusable, and at most one write-back.
    abbrev pub Counted : User → Result Before → Stats → Stats → Type 0
    Counted u (ok _) s s' =
        (s'.scanned ≡ s.scanned + 1)
        × (accounted s' ≡ accounted s + 1)
        × (s'.malformed ≡ s.malformed + (if usable u then 0 else 1))
        × (answered s' ≤ answered s + 1)
    Counted u (err _) s s' = Unit

    -- Applying a record without an error adds one to the records scanned and one to exactly one of the
    -- seven outcome counters, which is the malformed one exactly for an unusable record, and at most one
    -- to the write-backs that were answered; for any lawful store and any directory.
    pub apply-Counted :
        (u : User) (w : State D (Session T))
        → let (r, w') = apply syncer st dir u w in Counted u r w.rest.stats w'.rest.stats
    unfolding apply alert_once
    apply-Counted u w =
        let x = tally (λ n. record n { scanned = n.scanned + 1 }) w.rest in
        let (r, t) = st.helpper_by_directory_id u.id x.store in
        let w₂ = record w { rest = record x { store = t } } in
        ground (
          arith,
          looked_up-Adds u r w₂,
          laws.lookup_view u.id x.store u.id,
          laws.lookup_answer u.id x.store,
        )
