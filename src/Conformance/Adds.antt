-- ===== src/Conformance/Adds.antt =====
-- What a check does to the runner, up to a relation on the directory's states (conformance/checks.go).
use helppi_scim_go.Prelude.{
  ℕ, ◌+◌, ◌≤◌, String, ◌=ₛ◌, Bool, true, false, Option, none, some, arith, List, [], ◌∷◌, ◌++◌, ◌≡◌,
  refl, sym, ◌∙◌, ap, if◌then◌else◌, ℤ,
}
use helppi_scim_go.Exec.{Exec, Result}
use helppi_scim_go.Scim.Types.{User, Filter, ListResponse, ProviderConfig}
use helppi_scim_go.Conformance.Report.{Status, pass, fail, skip, Criterion, Case}
use mathlib.Core.List.{append_assoc, append-nil}
use helppi_scim_go.Conformance.Runner.{Directory, Runner, add, ask, unblocked, reading_page}

-- A relation on the directory's states that the requests which read are in.
pub record Reading {D : Type 0} (dir : Directory D) : Type 1 where
  pub Reads : D → D → Type 0
  pub Reads-refl : (d : D) → Reads d d
  pub Reads-trans : (d e f : D) → Reads d e → Reads e f → Reads d f
  pub page-Reads : (q : Filter) (i n : ℤ) (d : D) → Reads d (dir.page q i n d).1
  pub get_user-Reads : (id : String) (d : D) → Reads d (dir.get_user id d).1
  pub config-Reads : (d : D) → Reads d (dir.service_provider_config d).1

abbrev pub criteria : List Case → List Criterion
criteria [] = []
criteria (c ∷ cs) = c.about ∷ criteria cs

pub criteria-append : (cs ds : List Case) → criteria (cs ++ ds) ≡ criteria cs ++ criteria ds
criteria-append [] ds = refl
criteria-append (c ∷ cs) ds = ap (λ l. c.about ∷ l) (criteria-append cs ds)

-- The number of failed cases.
abbrev pub fail_one : Status → ℕ
fail_one pass = 0
fail_one fail = 1
fail_one skip = 0

unfoldable pub fails : List Case → ℕ
fails [] = 0
fails (c ∷ cs) = fail_one c.status + fails cs

pub fails-append : (cs ds : List Case) → fails (cs ++ ds) ≡ fails cs + fails ds
unfolding fails
fails-append [] ds = omega arith
fails-append (c ∷ cs) ds = omega (arith, fails-append cs ds)

module _ {D : Type 0} {dir : Directory D} (reading : Reading dir) where
  -- From a runner to one with the cases of some criteria added, the first page and what blocks the run kept.
  pub record Adds (about : List Criterion) (w w' : Runner D) : Type 0 where
    pub reads : reading.Reads w.dir w'.dir
    pub page_kept : w'.page ≡ w.page
    pub blocked_kept : w'.blocked ≡ w.blocked
    pub panicked_kept : w'.panicked ≡ w.panicked
    pub users_kept : w'.users ≡ w.users
    pub newest_kept : w'.newest ≡ w.newest
    pub more_fails : fails w.cases ≤ fails w'.cases
    pub added : criteria w'.cases ≡ criteria w.cases ++ about

  pub Adds-refl : (w : Runner D) → Adds [] w w
  Adds-refl w = record {
    reads = reading.Reads-refl w.dir;
    page_kept = refl;
    blocked_kept = refl;
    panicked_kept = refl;
    users_kept = refl;
    newest_kept = refl;
    more_fails = omega arith;
    added = sym (append-nil (criteria w.cases));
  }

  pub Adds-trans :
      (cs ds : List Criterion) (w w' w'' : Runner D)
      → Adds cs w w'
      → Adds ds w' w''
      → Adds (cs ++ ds) w w''
  Adds-trans cs ds w w' w'' h k = record {
    reads = reading.Reads-trans w.dir w'.dir w''.dir h.reads k.reads;
    page_kept = k.page_kept ∙ h.page_kept;
    blocked_kept = k.blocked_kept ∙ h.blocked_kept;
    panicked_kept = k.panicked_kept ∙ h.panicked_kept;
    users_kept = k.users_kept ∙ h.users_kept;
    newest_kept = k.newest_kept ∙ h.newest_kept;
    more_fails = omega (arith, h.more_fails, k.more_fails);
    added = k.added ∙ ap (λ l. l ++ ds) h.added ∙ append_assoc (criteria w.cases) cs ds;
  }

  pub add-Adds : (c : Criterion) (s : Status) (w : Runner D) → Adds (c ∷ []) w (add c s w)
  add-Adds c s w = record {
    reads = reading.Reads-refl w.dir;
    page_kept = refl;
    blocked_kept = refl;
    panicked_kept = refl;
    users_kept = refl;
    newest_kept = refl;
    more_fails = omega (arith, fails-append w.cases (record { about = c; status = s } ∷ []));
    added = criteria-append w.cases (record { about = c; status = s } ∷ []);
  }

  pub ask-Adds :
      {A : Type 0} (f : Exec D A) (w : Runner D)
      → reading.Reads w.dir (f w.dir).1
      → Adds [] w (ask f w).1
  ask-Adds f w h = record {
    reads = h;
    page_kept = refl;
    blocked_kept = refl;
    panicked_kept = refl;
    users_kept = refl;
    newest_kept = refl;
    more_fails = omega arith;
    added = sym (append-nil (criteria w.cases));
  }

  -- What is behind a check: it adds its case where there is a first page.
  abbrev pub Body : Criterion → (Runner D → Runner D) → Type 0
  Body c f = (w : Runner D) → (p : ListResponse) × w.page ≡ some p → Adds (c ∷ []) w (f w)

  pub chosen_on :
      (b : Bool) (c : Criterion) (w x y : Runner D)
      → (b ≡ true → Adds (c ∷ []) w x)
      → (b ≡ false → Adds (c ∷ []) w y)
      → Adds (c ∷ []) w (if b then x else y)
  chosen_on true c w x y h k = h refl
  chosen_on false c w x y h k = k refl

  pub chosen :
      (b : Bool) (c : Criterion) (w x y : Runner D)
      → Adds (c ∷ []) w x
      → Adds (c ∷ []) w y
      → Adds (c ∷ []) w (if b then x else y)
  chosen b c w x y h k = chosen_on b c w x y (λ e. h) (λ e. k)

  pub branch-Body :
      (b : Runner D → Bool) (c : Criterion) (f g : Runner D → Runner D)
      → Body c f
      → Body c g
      → Body c (λ w. if b w then f w else g w)
  branch-Body b c f g h k w page = chosen (b w) c w (f w) (g w) (h w page) (k w page)

  pub add-Body : (c : Criterion) (s : Status) → Body c (add c s)
  add-Body c s w _ = add-Adds c s w

  paged :
      (c : Criterion) (f : ListResponse → Runner D → Runner D) (w : Runner D)
      → ((p : ListResponse) → Adds (c ∷ []) w (f p w))
      → (o : Option ListResponse) → (p : ListResponse) × o ≡ some p
      → Adds (c ∷ []) w (elim o [ none ↦ record w { panicked = true } | some p ↦ f p w ])
  paged c f w h none (p, e) = ground arith
  paged c f w h (some q) _ = h q

  pub reading_page-Body :
      (c : Criterion) (f : ListResponse → Runner D → Runner D)
      → ((p : ListResponse) → Body c (f p))
      → Body c (reading_page f)
  reading_page-Body c f h w page = paged c f w (λ p. h p w page) w.page page

  pub asked-Body :
      {A : Type 0} (c : Criterion) (f : Runner D → Exec D A) (k : Result A → Runner D → Runner D)
      → ((w : Runner D) → reading.Reads w.dir (f w w.dir).1)
      → ((r : Result A) → Body c (k r))
      → Body c (λ w. k (ask (f w) w).0 (ask (f w) w).1)
  asked-Body c f k h g w page =
      Adds-trans [] (c ∷ []) w (ask (f w) w).1 (k (ask (f w) w).0 (ask (f w) w).1)
        (ask-Adds (f w) w (h w)) (g (ask (f w) w).0 (ask (f w) w).1 page)

  pub asked_page-Body :
      (c : Criterion) (q : Runner D → Filter) (i n : ℤ)
      (k : Result ListResponse → Runner D → Runner D)
      → ((r : Result ListResponse) → Body c (k r))
      → Body c (λ w. k (ask (dir.page (q w) i n) w).0 (ask (dir.page (q w) i n) w).1)
  asked_page-Body c q i n k h =
      asked-Body c (λ w. dir.page (q w) i n) k (λ w. reading.page-Reads (q w) i n w.dir) h

  pub asked_user-Body :
      (c : Criterion) (id : Runner D → String) (k : Result User → Runner D → Runner D)
      → ((r : Result User) → Body c (k r))
      → Body c (λ w. k (ask (dir.get_user (id w)) w).0 (ask (dir.get_user (id w)) w).1)
  asked_user-Body c id k h =
      asked-Body c (λ w. dir.get_user (id w)) k (λ w. reading.get_user-Reads (id w) w.dir) h

  pub asked_config-Body :
      (c : Criterion) (k : Result ProviderConfig → Runner D → Runner D)
      → ((r : Result ProviderConfig) → Body c (k r))
      → Body c (λ w. k (ask dir.service_provider_config w).0 (ask dir.service_provider_config w).1)
  asked_config-Body c k h =
      asked-Body c (λ w. dir.service_provider_config) k (λ w. reading.config-Reads w.dir) h

  -- The first page is there unless the run is blocked.
  abbrev pub Ready : Runner D → Type 0
  Ready w = (w.blocked =ₛ "") ≡ true → (p : ListResponse) × w.page ≡ some p

  pub Adds-Ready : (cs : List Criterion) (w w' : Runner D) → Adds cs w w' → Ready w → Ready w'
  Adds-Ready cs w w' h ready e =
      let (p, q) = ready (ap (λ s. s =ₛ "") (sym h.blocked_kept) ∙ e) in (p, h.page_kept ∙ q)

  -- A check adds its case.
  abbrev pub Sound : Criterion → (Runner D → Runner D) → Type 0
  Sound c f = (w : Runner D) → Ready w → Adds (c ∷ []) w (f w)

  pub Sound-step :
      {c : Criterion} {f : Runner D → Runner D}
      → Sound c f
      → (w : Runner D) → Ready w
      → Adds (c ∷ []) w (f w) × Ready (f w)
  Sound-step {c} {f} sound w ready =
      (sound w ready, Adds-Ready (c ∷ []) w (f w) (sound w ready) ready)

  pub unblocked-Sound :
      (c : Criterion) (f : Runner D → Runner D) → Body c f → Sound c (unblocked c f)
  unblocked-Sound c f h w ready =
      chosen_on (w.blocked =ₛ "") c w (f w) (add c skip w) (λ e. h w (ready e))
        (λ e. add-Adds c skip w)
