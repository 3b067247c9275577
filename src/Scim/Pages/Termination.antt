-- ===== src/Scim/Pages/Termination.antt =====
-- The bound on the loop of `ListUsers` (scim/client.go, `maxPages`).
use helppi_scim_go.Prelude.{
  ℕ, zero, suc, ◌+◌, ◌≤◌, ◌<◌, ◌≡◌, Option, some, refl, arith, Bool-cases, inl, inr, sym, ap, ◌∙◌,
  true, ℤ, pos, negsuc, ltb_ℤ, length, ◌==◌,
}
use helppi_scim_go.Exec.{Exec, Result, ok, err}
use helppi_scim_go.Scim.Types.{User, ListResponse}
use helppi_scim_go.Directory.Interface.{State}
use helppi_scim_go.Scim.Pages.{
  Paging, first_page, verdict, turned, more, finished, broken, Verdict, pages_from, handle, judged,
  handled, answered, Looping, needed, page_limit,
}

abbrev pub Ended : {A B : Type 0} → Option A × B → Type 0
Ended {A} (o, b) = (a : A) × (o ≡ some a)

-- Once the limit is set, the loop goes on only below it.
more-below :
    (size : ℕ) (lr : ListResponse) (p : Paging)
    → 0 < p.max_pages
    → verdict size lr p ≡ more
    → ((turned size lr p).max_pages ≡ p.max_pages) × (p.pages + 1 < p.max_pages)
unfolding verdict turned
more-below size lr p h e = ground arith

1<limit : (size : ℕ) (z : ℤ) → ltb_ℤ (pos 0) z ≡ true → 1 < page_limit size z
1<limit size (pos n) h = ground arith
1<limit size (negsuc n) h = ground arith

-- After the first page the limit is set, or the loop ends.
more-first :
    (size : ℕ) (lr : ListResponse)
    → verdict size lr first_page ≡ more
    → (turned size lr first_page).max_pages ≡ page_limit size lr.total_results
unfolding verdict turned
more-first size lr e = ground arith

limit-first :
    (size : ℕ) (lr : ListResponse)
    → verdict size lr first_page ≡ more
    → 1 < page_limit size lr.total_results
unfolding verdict turned
limit-first size lr e = ground (arith, 1<limit size lr.total_results)

module _ {D X : Type 0} (fn : User → Exec (State D X) (Unit {0})) (fetch : ℕ → Exec D ListResponse)
    (size : ℕ) where
  judged-Ended :
      (again : Paging → State D X → Looping fn fetch size) (t : Verdict) (q : Paging)
      (w : State D X)
      → (t ≡ more → Ended (again q w))
      → Ended (judged fn fetch size again t q w)
  unfolding judged
  judged-Ended again (broken e) q w h = (err e, refl)
  judged-Ended again finished q w h = (ok tt, refl)
  judged-Ended again more q w h = h refl

  handled-Ended :
      (again : Paging → State D X → Looping fn fetch size) (lr : ListResponse) (p : Paging)
      (r : Result (Unit {0})) (w : State D X)
      → (verdict size lr p ≡ more → Ended (again (turned size lr p) w))
      → Ended (handled fn fetch size again lr p (r, w))
  unfolding handled
  handled-Ended again lr p (ok x) w h =
      judged-Ended again (verdict size lr p) (turned size lr p) w h
  handled-Ended again lr p (err e) w h = (err e, refl)

  -- A round ends if every round after it does.
  answered-Ended :
      (again : Paging → State D X → Looping fn fetch size) (p : Paging) (x : X)
      (r : Result ListResponse) (d : D)
      → ((lr : ListResponse) (v : State D X)
          → r ≡ ok lr
          → verdict size lr p ≡ more
          → Ended (again (turned size lr p) v))
      → Ended (answered fn fetch size again p x (r, d))
  unfolding answered
  answered-Ended again p x (err e) d h = (err e, refl)
  answered-Ended again p x (ok lr) d h =
      let w : State D X = record { dir = d; rest = x } in
      let (q, v) = handle fn 0 lr.resources w in
      elim (Bool-cases (length lr.resources == 0)) [
        | inl z ↦ rw z (ok tt, refl)
        | inr z ↦ rw z (handled-Ended again lr p q v (h lr v refl))
      ]

  limit-Ended :
      (fuel : ℕ) (p : Paging) (w : State D X)
      → p.pages < p.max_pages
      → p.max_pages ≤ p.pages + fuel
      → Ended (pages_from fn fetch size fuel p w)
  unfolding pages_from turned
  limit-Ended zero p w a b = absurd (omega arith)
  limit-Ended (suc fuel) p w a b =
      answered-Ended (pages_from fn fetch size fuel) p w.rest _ _ (λ lr v _ e.
        let (same, below) = more-below size lr p (ground arith) e in
        limit-Ended fuel (turned size lr p) v (ground arith) (ground arith))

  needed-suc : (r : Result ListResponse) → (fuel : ℕ) × (needed size r ≡ suc fuel)
  unfolding needed
  needed-suc (ok lr) = (page_limit size lr.total_results, refl)
  needed-suc (err e) = (0, refl)

  first-Ended :
      (fuel : ℕ) (x : X) (r : Result ListResponse) (d : D)
      → needed size r ≡ suc fuel
      → Ended (answered fn fetch size (pages_from fn fetch size fuel) first_page x (r, d))
  unfolding needed turned
  first-Ended fuel x r d h = answered-Ended _ first_page x r d (λ lr v eq e.
      let limit = more-first size lr e in
      let above = limit-first size lr e in
      let enough : suc (page_limit size lr.total_results) ≡ suc fuel =
        sym (ap (needed size) eq) ∙ h in
      limit-Ended fuel (turned size lr first_page) v (rw limit above) (rw limit (omega arith)))

  -- The loop ends by itself, for every server and every callback: `needed` is enough fuel.
  pub pages_from-Ended :
      (w : State D X)
      → Ended (pages_from fn fetch size (needed size (fetch 1 w.dir).0) first_page w)
  unfolding needed pages_from
  pages_from-Ended w =
      let (fuel, e) = needed-suc (fetch 1 w.dir).0 in
      rw e (first-Ended fuel w.rest (fetch 1 w.dir).0 (fetch 1 w.dir).1 e)
