-- ===== src/Scim/Pages/Delivery/OnePage.antt =====
-- One turn of the loop of `ListUsers`, on a page that an honest server cut from its list.
use helppi_scim_go.Prelude.{
  ℕ, suc, ◌+◌, ◌*◌, ◌/◌, ◌≤◌, ◌<◌, ◌≡◌, refl, Option, List, [], ◌∷◌, ◌++◌, map, Bool-cases, true,
  false, ◌||◌, inl, inr, ◌⊎◌, pos, length, take, drop, contains, subst, ltb, ◌==◌, arith, sym, ap,
  ◌∙◌, ◌=ₛ◌, eq_iff, length-append, if◌then◌else◌,
}
use mathlib.Core.List.{append_assoc}
use native.Mathlib.Nat.{le-div_iff_mul-le, add-mul}
use helppi_scim_go.Exec.{Exec, Result, ok, err}
use helppi_scim_go.Scim.Types.{User, ListResponse, decodes}
use helppi_scim_go.Directory.Interface.{State}
use helppi_scim_go.Scim.Pages.{
  Paging, first_id, finished, more, verdict, turned, handle, judged, handled, answered, settled,
  Looping,
}
use helppi_scim_go.Scim.Pages.Delivery.{
  for_each, ids, Distinct, length-decodes, take-drop, length-take-drop, contains-middle,
  verdict-honest, handle-for_each, for_each-append_ok, for_each-append_err,
}

-- Where the loop stands in the list: after the records `done`, before the records `rest`.
pub record Reached (all : List User) (size : ℕ) (done rest : List User) (p : Paging) : Type 0 where
  pub split : done ++ rest ≡ all
  pub at : p.start_index ≡ length done + 1
  pub max : (p.max_pages ≡ 0) ⊎ (p.max_pages ≡ length all / size + 8)
  pub full : p.pages * size ≤ length done
  pub last : (p.prev_first_id ≡ "") ⊎ (contains p.prev_first_id (ids done) ≡ true)

abbrev pub settle :
    {D X : Type 0} → Option (Result (Unit {0})) × State D X → Result (Unit {0}) × State D X
settle (o, v) = (settled o, v)

contains-here : (xs ys : List User) (u : User) → contains u.id (ids (xs ++ u ∷ ys)) ≡ true
unfolding contains
contains-here [] ys u = ground (arith, eq_iff u.id u.id)
contains-here (x ∷ xs) ys u = ground (arith, contains-here xs ys u)

nothing_left : (xs : List User) → length xs ≡ 0 → xs ≡ []
nothing_left [] h = refl
nothing_left (x ∷ xs) h = absurd (omega arith)

module _ {D X : Type 0} (fn : User → Exec (State D X) (Unit {0})) (all : List User)
    (distinct : Distinct all) (s : ℕ) (fetch : ℕ → Exec D ListResponse) where
  abbrev size : ℕ
  size = suc s

  module _ (done us : List User) (u : User) (p : Paging)
      (reached : Reached all size done (u ∷ us) p) (lr : ListResponse)
      (total : lr.total_results ≡ pos (length all))
      (page : lr.resources ≡ map decodes (u ∷ take s us)) where
    page_length : length lr.resources ≡ suc (length (take s us))
    page_length = rw page (omega (arith, length-decodes (take s us)))

    all_length : length done + suc (length us) ≡ length all
    all_length = sym (length-append done (u ∷ us)) ∙ ap length reached.split

    fresh : (first_id lr.resources ≡ "") ⊎ ((first_id lr.resources =ₛ p.prev_first_id) ≡ false)
    fresh = elim reached.last [
      | inl none_before ↦ elim (Bool-cases (u.id =ₛ "")) [
        | inl e ↦ inl (ap first_id page ∙ (eq_iff u.id "").0 e)
        | inr e ↦ inr (rw (page, none_before) e)
      ]
      | inr before ↦ inr (
          rw page (
            contains-middle done us u p.prev_first_id (subst Distinct (sym reached.split) distinct)
              before))
    ]

    few : p.pages + 1 < length all / size + 8
    few =
        let most : p.pages ≤ length all / size =
          (le-div_iff_mul-le {k = size} {x = p.pages} {y = length all} (omega arith)).1
            (omega (arith, reached.full, all_length)) in
        omega arith

    verdict_here : verdict size lr p ≡ (
        if ltb (length lr.resources) size
          || ltb (length all) (length done + length lr.resources + 1)
        then finished
        else more)
    verdict_here =
        verdict-honest size (length done) (length all) lr p total reached.at reached.max
          (omega (arith, all_length)) few fresh

    full_page : verdict size lr p ≡ more → size ≤ length lr.resources
    full_page h = ground (arith, verdict_here)

    pub more-left : verdict size lr p ≡ more → 0 < length (drop s us)
    more-left h = ground (arith, verdict_here, length-take-drop s us, all_length, page_length)

    pub Reached-turned :
        verdict size lr p ≡ more
        → Reached all size (done ++ u ∷ take s us) (drop s us) (turned size lr p)
    unfolding turned
    Reached-turned h = record {
      split =
          append_assoc done (u ∷ take s us) (drop s us)
          ∙ ap (λ l. done ++ u ∷ l) (take-drop s us)
          ∙ reached.split;
      at = omega (arith, reached.at, page_length, length-append done (u ∷ take s us));
      max = rw total (ground (arith, reached.max));
      full = omega (
        arith,
        reached.full,
        full_page h,
        page_length,
        length-append done (u ∷ take s us),
        add-mul p.pages 1 size,
      );
      last = inr (rw page (contains-here done (take s us) u));
    }

    module _ (again : Paging → State D X → Looping fn fetch size)
        (next : (v : State D X)
          → verdict size lr p ≡ more
          → settle (again (turned size lr p) v) ≡ for_each fn (drop s us) v) where
      judged-for_each :
          (v : State D X)
          → settle (judged fn fetch size again (verdict size lr p) (turned size lr p) v)
            ≡ for_each fn (drop s us) v
      unfolding judged settled for_each
      judged-for_each v =
          let sum = length-take-drop s us in
          let test =
            ltb (length lr.resources) size
            || ltb (length all) (length done + length lr.resources + 1) in
          elim (Bool-cases test) [
            | inl ends ↦
                (let left : length (drop s us) ≡ 0 = ground (arith, sum, all_length, page_length) in
                  rw (verdict_here, ends, nothing_left (drop s us) left, for_each) refl)
            | inr goes ↦
                (let decided : verdict size lr p ≡ more = rw (verdict_here, goes) refl in
                  rw decided (next v decided))
          ]

      handled-for_each :
          (r : Result (Unit {0})) (w v : State D X)
          → for_each fn (u ∷ take s us) w ≡ (r, v)
          → settle (handled fn fetch size again lr p (r, v)) ≡ for_each fn (u ∷ us) w
      unfolding handled settled
      handled-for_each (ok x) w v h =
          judged-for_each v
          ∙ sym (for_each-append_ok fn (u ∷ take s us) (drop s us) w v h)
          ∙ ap (λ l. for_each fn (u ∷ l) w) (take-drop s us)
      handled-for_each (err e) w v h =
          sym (for_each-append_err fn (u ∷ take s us) (drop s us) w v e h)
          ∙ ap (λ l. for_each fn (u ∷ l) w) (take-drop s us)

      pub answered-for_each :
          (w : State D X)
          → settle (answered fn fetch size again p w.rest (ok lr, w.dir)) ≡ for_each fn (u ∷ us) w
      unfolding answered
      answered-for_each w =
          let some_left : (length lr.resources == 0) ≡ false = ground (arith, page_length) in
          let run : handle fn 0 lr.resources w ≡ for_each fn (u ∷ take s us) w =
            rw page (handle-for_each fn 0 (u ∷ take s us) w) in
          let (r, v) = for_each fn (u ∷ take s us) w in
          rw (some_left, run) (handled-for_each r w v refl)

  pub answered-nothing :
      (lr : ListResponse) (p : Paging) (w : State D X)
      (again : Paging → State D X → Looping fn fetch size)
      → lr.resources ≡ []
      → settle (answered fn fetch size again p w.rest (ok lr, w.dir)) ≡ (ok tt, w)
  unfolding answered settled
  answered-nothing lr p w again empty =
      let nothing : (length lr.resources == 0) ≡ true = rw empty refl in rw nothing refl
