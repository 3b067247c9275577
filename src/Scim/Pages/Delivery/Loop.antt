-- ===== src/Scim/Pages/Delivery/Loop.antt =====
-- The loop of `ListUsers` along the list that an honest server cuts into pages.
use helppi_scim_go.Prelude.{
  ℕ, zero, suc, ◌+◌, ◌*◌, ◌/◌, ◌<◌, ◌≡◌, refl, List, [], ◌∷◌, ◌++◌, map, inl, pos, length, take,
  drop, arith, sym, ap, ◌∙◌,
}
use native.Mathlib.Nat.{add-mul, suc-mul, lt-div-mul-add}
use helppi_scim_go.Exec.{Exec, ok}
use helppi_scim_go.Scim.Types.{User, ListResponse, decodes}
use helppi_scim_go.Directory.Interface.{State}
use helppi_scim_go.Scim.Pages.{
  Paging, first_page, effective_size, turned, pages_from, needed, list_users,
}
use helppi_scim_go.Scim.Pages.Delivery.{for_each, sheet, Distinct, drop-append, length-take-drop}
use helppi_scim_go.Scim.Pages.Delivery.OnePage.{
  Reached, settle, more-left, Reached-turned, answered-for_each, answered-nothing,
}

-- How many records so many pages hold.
capacity : ℕ → ℕ → ℕ
capacity size zero = 0
capacity size (suc n) = size + capacity size n

capacity_lem : (size n : ℕ) → capacity size n ≡ n * size
unfolding capacity
capacity_lem size zero = omega arith
capacity_lem size (suc n) = omega (arith, capacity_lem size n)

module _ {D X : Type 0} (fn : User → Exec (State D X) (Unit {0})) (all : List User)
    (distinct : Distinct all) (s : ℕ) (fetch : ℕ → Exec D ListResponse) where
  abbrev size : ℕ
  size = suc s

  module _ (serves : (k : ℕ) (d : D) → fetch (k + 1) d ≡ (ok (sheet all size k), d)) where
    dropped :
        (done rest : List User) (p : Paging)
        → Reached all size done rest p
        → drop (length done) all ≡ rest
    dropped done rest p reached =
        ap (λ l. drop (length done) l) (sym reached.split) ∙ drop-append done rest

    fetched :
        (done rest : List User) (p : Paging) (w : State D X)
        → Reached all size done rest p
        → fetch p.start_index w.dir ≡ (ok (sheet all size (length done)), w.dir)
    fetched done rest p w reached = ap (λ n. fetch n w.dir) reached.at ∙ serves (length done) w.dir

    pages-for_each :
        (fuel : ℕ) (done rest : List User) (p : Paging) (w : State D X)
        → Reached all size done rest p
        → length rest < capacity size fuel
        → settle (pages_from fn fetch size fuel p w) ≡ for_each fn rest w
    unfolding pages_from capacity for_each
    pages-for_each zero done rest p w reached enough = absurd (omega arith)
    pages-for_each (suc fuel) done [] p w reached enough = rw (fetched done [] p w reached) (
        answered-nothing fn all distinct s fetch (sheet all size (length done)) p w
          (pages_from fn fetch size fuel)
          (ap (λ l. map decodes (take size l)) (dropped done [] p reached)))
    pages-for_each (suc fuel) done (u ∷ us) p w reached enough =
        let lr = sheet all size (length done) in
        let page : lr.resources ≡ map decodes (u ∷ take s us) =
          ap (λ l. map decodes (take size l)) (dropped done (u ∷ us) p reached) in
        rw (fetched done (u ∷ us) p w reached) (
          answered-for_each fn all distinct s fetch done us u p reached lr refl page
            (pages_from fn fetch size fuel)
            (λ v h.
              pages-for_each fuel (done ++ u ∷ take s us) (drop s us) (turned size lr p) v
                (Reached-turned fn all distinct s fetch done us u p reached lr refl page h)
                (omega (
                  arith,
                  more-left fn all distinct s fetch done us u p reached lr refl page h,
                  length-take-drop s us,
                )))
            w)

    first_response : (w : State D X) → fetch 1 w.dir ≡ (ok (sheet all size 0), w.dir)
    first_response w = serves 0 w.dir

    enough_fuel : length all < capacity size (suc (length all / size + 8))
    enough_fuel = omega (
      arith,
      capacity_lem size (suc (length all / size + 8)),
      add-mul (length all / size) 9 size,
      suc-mul (length all / size + 8) size,
      add-mul (length all / size) 8 size,
      lt-div-mul-add {a = length all} {b = size} (omega arith),
    )

    Reached-first : Reached all size [] all first_page
    Reached-first = record {
      split = refl;
      at = omega arith;
      max = inl refl;
      full = omega arith;
      last = inl refl;
    }

    -- Where a server answers every request with the page asked for of one unchanging list, in which no id
    -- occurs twice, `ListUsers` is the callback on every record of the list, once and in order, up to its
    -- first error; for every page size of at least 1 and every callback.
    pub list_users-for_each :
        (w : State D X) → list_users fetch (pos (suc s)) fn w ≡ for_each fn all w
    unfolding list_users effective_size needed
    list_users-for_each w =
        rw (first_response w) (
          pages-for_each (suc (length all / size + 8)) [] all first_page w Reached-first
            enough_fuel)
