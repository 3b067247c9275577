-- ===== src/Store/Postgres/Lock/Held.antt =====
-- What `WithSyncLock` of store/postgres/lock.go runs under its lock, and what it gives back.
use helppi_scim_go.Prelude.{
  ℕ, ◌+◌, String, Bool, true, false, ◌∷◌, ◌≡◌, refl, ap, ◌∙◌, arith, ◌⊎◌, inl, inr, Bool-cases,
}
use helppi_scim_go.Exec.{Exec, Result, ok, err, Error}
use helppi_scim_go.Store.Postgres.Backend.{
  Backend, BackendLaws, View, without, Changes, Tries, GivenBack, from_held,
}
use helppi_scim_go.Store.Postgres.Lock.{sync_key, tried, connected, with_sync_lock}

module _ {D : Type 0} (back : Backend D) (laws : BackendLaws back) where
  -- A function that gives back the locks and connections that it takes.
  abbrev pub Balanced : Exec D (Unit {0}) → Type 0
  Balanced fn =
      (d : D)
      → ((laws.seen (fn d).1).held ≡ (laws.seen d).held)
        × ((laws.seen (fn d).1).out ≡ (laws.seen d).out)

  module _ (hash : String → ℕ) (partner : String) (fn : Exec D (Unit {0}))
      (balanced : Balanced fn) where
    abbrev key : ℕ
    key = sync_key back hash partner fn

    -- Either the function ran once, from a state in which this session holds one lock more, and its result and its
    -- writes are the ones there are; or it did not run, nothing was written, and there is an error.
    abbrev pub RanHeld : View → View → Result (Unit {0}) → Type 0
    RanHeld v v' r =
        ((d : D) × ((laws.seen d).held ≡ key ∷ v.held)
          × ((laws.seen d).log ≡ v.log)
          × (r ≡ (fn d).0)
          × (v'.log ≡ (laws.seen (fn d).1).log))
        ⊎ ((e : Error) × (r ≡ err e) × (v'.log ≡ v.log))

    abbrev pub Guarded : View → View → Result (Unit {0}) → Type 0
    Guarded v v' r = RanHeld v v' r × GivenBack back laws key v v' × (v'.out ≡ v.out)

    tried-Guarded :
        (v : View) (r : Result Bool) (d : D)
        → Tries key v (laws.seen d) r
        → let (q, d') = tried back hash partner fn r d in Guarded v (laws.seen d') q
    unfolding tried without
    tried-Guarded v (err e) d h = rw h (inr (_, refl, refl), inl refl, refl)
    tried-Guarded v (ok false) d h = rw h (inr (_, refl, refl), inl refl, refl)
    tried-Guarded v (ok true) d h =
        let (r, d') = fn d in
        let ran : RanHeld v (laws.seen d') r =
          inl (d, ap (λ (x : View). x.held) h, ap (λ (x : View). x.log) h, refl, refl) in
        let held' = (balanced d).0 ∙ ap (λ (x : View). x.held) h in
        let out' = (balanced d).1 ∙ ap (λ (x : View). x.out) h in
        elim (Bool-cases (laws.frees key d')) [
          | inl freed ↦
              rw (laws.unlock key d', freed)
                (ran, inl (ap (without key) held' ∙ ground arith), out')
          | inr lingers ↦ rw (laws.unlock key d', lingers) (ran, inr (d', lingers, held'), out')
        ]

    released-Guarded :
        (v u : View) (d' : D) (r : Result (Unit {0}))
        → u ≡ record v { out = v.out + 1 }
        → Guarded u (laws.seen d') r
        → Guarded v (laws.seen (back.release d')) r
    released-Guarded v u d' r h (run, held, out) = rw (laws.release d') (
      runs run,
      from_held back laws key v u (laws.seen d') (ap (λ (x : View). x.held) h) held,
      omega (arith, out, ap (λ (x : View). x.out) h),
    )
      where
        runs : RanHeld u (laws.seen d') r → RanHeld v (laws.seen d') r
        runs (inl (d, at, log, same, log')) = inl (
          d,
          at ∙ ap (λ (x : View). key ∷ x.held) h,
          log ∙ ap (λ (x : View). x.log) h,
          same,
          log',
        )
        runs (inr (e, fails, log)) = inr (e, fails, log ∙ ap (λ (x : View). x.log) h)

    connected-Guarded :
        (v : View) (r : Result (Unit {0})) (d : D)
        → Changes v (record v { out = v.out + 1 }) (laws.seen d) r
        → let (q, d') = connected back hash partner fn r d in Guarded v (laws.seen d') q
    unfolding connected
    connected-Guarded v (err e) d h = rw h (inr (_, refl, refl), inl refl, refl)
    connected-Guarded v (ok _) d h =
        let (r, d₁) = back.try_lock key d in
        let (q, d₂) = tried back hash partner fn r d₁ in
        released-Guarded v (laws.seen d) d₂ q h
          (tried-Guarded (laws.seen d) r d₁ (laws.try_lock key d))

    runs-held :
        (d : D)
        → (back.acquire d).0 ≡ ok tt
        → (back.try_lock key (back.acquire d).1).0 ≡ ok true
        → (with_sync_lock back hash partner fn d).0
          ≡ (fn (back.try_lock key (back.acquire d).1).1).0
    unfolding with_sync_lock connected tried
    runs-held d a t = rw (a, connected) (rw (t, tried) refl)

    -- `WithSyncLock` runs a function that gives back what it takes only while this session holds the lock of the
    -- partner, and then returns its result and keeps its writes, or it fails and writes nothing. It runs it wherever a
    -- connection and the lock are to be had. However it ends, the connections are those of before, and the locks too,
    -- unless the statement that frees this one fails.
    pub with_sync_lock-Guarded :
        (d : D)
        → let (r, d') = with_sync_lock back hash partner fn d in
          Guarded (laws.seen d) (laws.seen d') r
          × ((back.acquire d).0 ≡ ok tt
              → (back.try_lock key (back.acquire d).1).0 ≡ ok true
              → r ≡ (fn (back.try_lock key (back.acquire d).1).1).0)
    unfolding with_sync_lock
    with_sync_lock-Guarded d =
        let (r, d') = back.acquire d in
        (connected-Guarded (laws.seen d) r d' (laws.acquire d), runs-held d)
