-- ===== src/Scim/Pages/Runs.antt =====
-- The contract of `ListUsers` for its caller (the comment above it in scim/client.go).
use helppi_scim_go.Prelude.{
  ℕ, zero, suc, ◌+◌, ◌≡◌, refl, List, [], ◌∷◌, ◌++◌, Bool-cases, inl, inr, ℤ, length, ◌==◌, arith,
  ◌∙◌,
}
use helppi_scim_go.Exec.{Exec, Result, ok, err}
use helppi_scim_go.Scim.Types.{User, ListResponse, Raw, decodes, undecodable}
use helppi_scim_go.Directory.Interface.{State}
use helppi_scim_go.Directory.Run.{Run, Read, stops, aborts, calls}
use helppi_scim_go.Scim.Pages.{
  Paging, first_page, effective_size, Verdict, broken, finished, more, verdict, turned, Looping,
  handle, judged, handled, answered, pages_from, settled, list_users,
}

-- Some list of records for which the walk from `w` ended in `r` and `v` is a run of the callback.
abbrev pub Runs :
    {D X : Type 0}
    → (D → D → Type 0)
    → (User → Exec (State D X) (Unit {0}))
    → State D X
    → Result (Unit {0})
    → State D X
    → Type 0
Runs Reads fn w r v = (us : List User) × Run Reads fn us w r v

module _ {D X : Type 0} (Reads : D → D → Type 0) (fn : User → Exec (State D X) (Unit {0}))
    (keep : (d : D) → Reads d d) (chain : (d e f : D) → Reads d e → Reads e f → Reads d f) where
  chain_Read : (u v w : State D X) → Read Reads u v → Read Reads v w → Read Reads u w
  chain_Read u v w (a, b) (c, d) = (c ∙ a, chain u.dir v.dir w.dir b d)

  -- Reading before a run is part of the run.
  Run-after_read :
      (us : List User) (w v : State D X) (r : Result (Unit {0})) (w' : State D X)
      → Read Reads w v
      → Run Reads fn us v r w'
      → Run Reads fn us w r w'
  Run-after_read us w v r w' h (stops v₀ x r₀ k) = stops w x r (chain_Read w v x h k)
  Run-after_read us w v r w' h (aborts v₀ x u e w₀ k eq) =
      aborts w x u e w' (chain_Read w v x h k) eq
  Run-after_read us w v r w' h (calls v₀ x u us₀ v' r₀ w₀ k eq rest) =
      calls w x u us₀ v' r w' (chain_Read w v x h k) eq rest

  -- Two runs in a row, the first of which succeeds, are one.
  Run-join :
      (us vs : List User) (w v : State D X) (q r : Result (Unit {0})) (w' : State D X)
      → Run Reads fn us w q v
      → q ≡ ok tt
      → Run Reads fn vs v r w'
      → Run Reads fn (us ++ vs) w r w'
  Run-join us vs w v q r w' (stops w₀ v₀ q₀ k) h rest = Run-after_read vs w v r w' k rest
  Run-join us vs w v q r w' (aborts w₀ x u e v₀ k eq) h rest = absurd (ground arith)
  Run-join us vs w v q r w' (calls w₀ x u us₀ x' q₀ v₀ k eq run) h rest =
      calls w x u (us₀ ++ vs) x' r w' k eq (Run-join us₀ vs x' v q r w' run h rest)

  keep_Read : (w : State D X) → Read Reads w w
  keep_Read w = (refl, keep w.dir)

  -- The rest of a page after the callback returned `r`.
  after : ℕ → List Raw → Result (Unit {0}) → State D X → Result (Unit {0}) × State D X
  after i l r w = elim r [ ok _ ↦ handle fn (i + 1) l w | err e ↦ (err e, w) ]

  after-Runs :
      (i : ℕ) (l : List Raw) (u : User) (w : State D X) (r : Result (Unit {0})) (v : State D X)
      → fn u w ≡ (r, v)
      → Runs Reads fn v (handle fn (i + 1) l v).0 (handle fn (i + 1) l v).1
      → Runs Reads fn w (after i l r v).0 (after i l r v).1
  unfolding after
  after-Runs i l u w (ok x) v e (us, run) = (u ∷ us, calls w w u us v _ _ (keep_Read w) e run)
  after-Runs i l u w (err x) v e rest = (u ∷ [], aborts w w u x v (keep_Read w) e)

  handle-Runs :
      (i : ℕ) (l : List Raw) (w : State D X)
      → Runs Reads fn w (handle fn i l w).0 (handle fn i l w).1
  unfolding handle after
  handle-Runs i [] w = ([], stops w w (ok tt) (keep_Read w))
  handle-Runs i (undecodable text ∷ l) w = ([], stops w w _ (keep_Read w))
  handle-Runs i (decodes u ∷ l) w =
      let (r, v) = fn u w in after-Runs i l u w r v refl (handle-Runs (i + 1) l v)

  module _ (fetch : ℕ → Exec D ListResponse) (reads : (n : ℕ) (d : D) → Reads d (fetch n d).1)
      (size : ℕ) where
    Fits : (Paging → State D X → Looping fn fetch size) → Type 0
    Fits again =
        (p : Paging) (w : State D X) → Runs Reads fn w (settled (again p w).0) (again p w).1

    judged-Runs :
        (again : Paging → State D X → Looping fn fetch size) (t : Verdict) (q : Paging)
        (w v : State D X) (us : List User)
        → Fits again
        → Run Reads fn us w (ok tt) v
        → Runs Reads fn w
            (settled (judged fn fetch size again t q v).0)
            (judged fn fetch size again t q v).1
    unfolding judged settled Fits
    judged-Runs again (broken e) q w v us fits run =
        (us ++ [], Run-join us [] w v (ok tt) _ v run refl (stops v v _ (keep_Read v)))
    judged-Runs again finished q w v us fits run = (us, run)
    judged-Runs again more q w v us fits run =
        let (vs, rest) = fits q v in (us ++ vs, Run-join us vs w v (ok tt) _ _ run refl rest)

    handled-Runs :
        (again : Paging → State D X → Looping fn fetch size) (lr : ListResponse) (p : Paging)
        (w : State D X) (r : Result (Unit {0})) (v : State D X)
        → Fits again
        → Runs Reads fn w r v
        → Runs Reads fn w
            (settled (handled fn fetch size again lr p (r, v)).0)
            (handled fn fetch size again lr p (r, v)).1
    unfolding handled settled
    handled-Runs again lr p w (ok x) v fits (us, run) =
        judged-Runs again (verdict size lr p) (turned size lr p) w v us fits run
    handled-Runs again lr p w (err e) v fits run = run

    answered-Runs :
        (again : Paging → State D X → Looping fn fetch size) (p : Paging) (w : State D X)
        (r : Result ListResponse) (d : D)
        → Fits again
        → Reads w.dir d
        → Runs Reads fn w
            (settled (answered fn fetch size again p w.rest (r, d)).0)
            (answered fn fetch size again p w.rest (r, d)).1
    unfolding answered settled
    answered-Runs again p w (err e) d fits h = ([], stops w _ _ (refl, h))
    answered-Runs again p w (ok lr) d fits h =
        let v : State D X = record { dir = d; rest = w.rest } in
        let (us, run) = handle-Runs 0 lr.resources v in
        elim (Bool-cases (length lr.resources == 0)) [
          | inl z ↦ rw z ([], stops w v (ok tt) (refl, h))
          | inr z ↦
              rw z
                (handled-Runs again lr p w _ _ fits (us, Run-after_read us w v _ _ (refl, h) run))
        ]

    pages_from-Runs : (fuel : ℕ) → Fits (pages_from fn fetch size fuel)
    unfolding pages_from Fits settled
    pages_from-Runs zero p w = ([], stops w w _ (keep_Read w))
    pages_from-Runs (suc fuel) p w =
        answered-Runs (pages_from fn fetch size fuel) p w _ _ (pages_from-Runs fuel)
          (reads p.start_index w.dir)

  -- For pages that only read the directory, a walk hands records to the callback one at a time and
  -- nothing else changes the caller's state; an error of the callback is the last thing that happens,
  -- and is returned unchanged.
  pub list_users-Runs :
      (fetch : ℕ → Exec D ListResponse)
      → ((n : ℕ) (d : D) → Reads d (fetch n d).1)
      → (page_size : ℤ) (w : State D X)
      → Runs Reads fn w (list_users fetch page_size fn w).0 (list_users fetch page_size fn w).1
  unfolding list_users Fits
  list_users-Runs fetch reads page_size w =
      pages_from-Runs fetch reads (effective_size page_size) _ first_page w
