-- ===== src/Store/Postgres/Migrate/Logs.antt =====
-- What a migration leaves in the database (store/postgres/migrate.go).
use helppi_scim_go.Prelude.{
  String, Bool, true, false, List, [], ◌∷◌, ◌++◌, ◌≡◌, subst, refl, sym, ap, ◌∙◌, arith, ◌⊎◌, inl,
  inr, contains,
}
use helppi_scim_go.Exec.{Result, ok, err}
use helppi_scim_go.Store.Postgres.Backend.{
  Backend, Embedded, BackendLaws, Entry, ran, recorded, versions, View, Changes, Adds, Commits,
  Tells,
}
use helppi_scim_go.Store.Postgres.Migrate.{
  committed, recorded_version, ran_body, begun, apply_file, checked_file, migrate_file,
}

-- The locks and the connections are those of before.
abbrev pub SameHold : View → View → Type 0
SameHold v v' = (v'.held ≡ v.held) × (v'.out ≡ v.out)

-- All of some entries are committed, or none.
abbrev pub AllOrNothing : List Entry → View → View → Result (Unit {0}) → Type 0
AllOrNothing es v v' (ok _) = (v'.log ≡ v.log ++ es) × SameHold v v'
AllOrNothing es v v' (err e) = (v'.log ≡ v.log) × SameHold v v'

-- The open transaction is no matter.
AllOrNothing-pending :
    (es q : List Entry) (u v v' : View) (r : Result (Unit {0}))
    → u ≡ record v { pending = q }
    → AllOrNothing es u v' r
    → AllOrNothing es v v' r
AllOrNothing-pending es q u v v' (ok a) h k = subst (λ x. AllOrNothing es x v' (ok a)) h k
AllOrNothing-pending es q u v v' (err e) h k = subst (λ x. AllOrNothing es x v' (err e)) h k

-- The entries of a file.
abbrev pub entries : String → String → List Entry
entries file body = ran body ∷ recorded file ∷ []

module _ {D : Type 0} (back : Backend D) (embedded : Embedded) (laws : BackendLaws back) where
  committed-AllOrNothing :
      (file : String) (es : List Entry) (v : View) (d : D) (r : Result (Unit {0}))
      → Commits v (laws.seen d) r
      → v.pending ≡ es
      → AllOrNothing es v
          (laws.seen (committed back embedded file r d).1)
          (committed back embedded file r d).0
  unfolding committed
  committed-AllOrNothing file es v d (ok _) h p = rw h (ground (arith, p))
  committed-AllOrNothing file es v d (err e) (q, h) p = rw h (refl, (refl, refl))

  recorded-AllOrNothing :
      (file body : String) (v : View) (d : D) (r : Result (Unit {0}))
      → Adds v (recorded file ∷ []) (laws.seen d) r
      → v.pending ≡ ran body ∷ []
      → AllOrNothing
          (entries file body)
          v
          (laws.seen (recorded_version back embedded file r d).1)
          (recorded_version back embedded file r d).0
  unfolding recorded_version
  recorded-AllOrNothing file body v d (ok _) h p =
      let (q, d') = back.commit d in
      let (a, x) = committed back embedded file q d' in
      AllOrNothing-pending (entries file body) (v.pending ++ recorded file ∷ []) (laws.seen d) v
        (laws.seen x) a h
        (committed-AllOrNothing file (entries file body) (laws.seen d) d' q (laws.commit d)
          (ap (λ (x : View). x.pending) h ∙ ap (λ l. l ++ recorded file ∷ []) p))
  recorded-AllOrNothing file body v d (err e) (q, h) p =
      rw (laws.rollback d, h) (refl, (refl, refl))

  ran-AllOrNothing :
      (file body : String) (v : View) (d : D) (r : Result (Unit {0}))
      → Adds v (ran body ∷ []) (laws.seen d) r
      → v.pending ≡ []
      → AllOrNothing
          (entries file body)
          v
          (laws.seen (ran_body back embedded file r d).1)
          (ran_body back embedded file r d).0
  unfolding ran_body
  ran-AllOrNothing file body v d (ok _) h p =
      let (q, d') = back.record_version file d in
      let (a, x) = recorded_version back embedded file q d' in
      AllOrNothing-pending (entries file body) (v.pending ++ ran body ∷ []) (laws.seen d) v
        (laws.seen x) a h
        (recorded-AllOrNothing file body (laws.seen d) d' q (laws.record_version file d)
          (ap (λ (x : View). x.pending) h ∙ ap (λ l. l ++ ran body ∷ []) p))
  ran-AllOrNothing file body v d (err e) (q, h) p = rw (laws.rollback d, h) (refl, (refl, refl))

  begun-AllOrNothing :
      (file body : String) (v : View) (d : D) (r : Result (Unit {0}))
      → Changes v (record v { pending = [] }) (laws.seen d) r
      → AllOrNothing
          (entries file body)
          v
          (laws.seen (begun back embedded file body r d).1)
          (begun back embedded file body r d).0
  unfolding begun
  begun-AllOrNothing file body v d (ok _) h =
      let (q, d') = back.exec_body body d in
      let (a, x) = ran_body back embedded file q d' in
      AllOrNothing-pending (entries file body) [] (laws.seen d) v (laws.seen x) a h (
        ran-AllOrNothing file body (laws.seen d) d' q (laws.exec_body body d)
          (ap (λ (x : View). x.pending) h))
  begun-AllOrNothing file body v d (err e) h = rw h (refl, (refl, refl))

  -- What one round of the loop may do: on an error nothing is committed.
  abbrev pub FileDone : String → View → View → Result (Unit {0}) → Type 0
  FileDone file v v' (ok _) =
      (((contains file (versions v.log) ≡ true) × (v'.log ≡ v.log))
        ⊎ ((contains file (versions v.log) ≡ false)
            × ((body : String) × (embedded.read_file file ≡ ok body)
                × (v'.log ≡ v.log ++ entries file body))))
      × SameHold v v'
  FileDone file v v' (err e) = (v'.log ≡ v.log) × SameHold v v'

  apply-FileDone :
      (file : String) (r : Result String) (d : D)
      → embedded.read_file file ≡ r
      → contains file (versions (laws.seen d).log) ≡ false
      → FileDone file
          (laws.seen d)
          (laws.seen (apply_file back embedded file r d).1)
          (apply_file back embedded file r d).0
  unfolding apply_file
  apply-FileDone file (err e) d h fresh = (refl, (refl, refl))
  apply-FileDone file (ok body) d h fresh =
      let (q, d') = back.begin d in
      let (a, x) = begun back embedded file body q d' in
      of_file (laws.seen x) a (begun-AllOrNothing file body (laws.seen d) d' q (laws.begin d))
    where
      of_file :
          (v' : View) (r : Result (Unit {0}))
          → AllOrNothing (entries file body) (laws.seen d) v' r
          → FileDone file (laws.seen d) v' r
      of_file v' (ok _) (e, same) = (inr (fresh, (body, h, e)), same)
      of_file v' (err x) k = k

  checked-FileDone :
      (file : String) (v : View) (d : D) (r : Result Bool)
      → Tells (contains file (versions v.log)) r
      → laws.seen d ≡ v
      → FileDone file v
          (laws.seen (checked_file back embedded file r d).1)
          (checked_file back embedded file r d).0
  unfolding checked_file
  checked-FileDone file v d (err e) h same = rw same (refl, (refl, refl))
  checked-FileDone file v d (ok true) h same = rw same (inl (sym h, refl), (refl, refl))
  checked-FileDone file v d (ok false) h same =
      let (a, x) = apply_file back embedded file (embedded.read_file file) d in
      subst (λ u. FileDone file u (laws.seen x) a) same
        (apply-FileDone file (embedded.read_file file) d refl
          (ap (λ (x : View). contains file (versions x.log)) same ∙ sym h))

  pub migrate_file-FileDone :
      (file : String) (d : D)
      → FileDone file
          (laws.seen d)
          (laws.seen (migrate_file back embedded file d).1)
          (migrate_file back embedded file d).0
  unfolding migrate_file
  migrate_file-FileDone file d =
      let (r, d') = back.is_applied file d in
      checked-FileDone file (laws.seen d) d' r (laws.is_applied file d).0 (laws.is_applied file d).1
