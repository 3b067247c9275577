-- ===== src/Scim/Pages/Delivery.antt =====
-- What `ListUsers` delivers where the server cuts an unchanging list into the pages that it is asked for.
pub mod OnePage
pub mod Loop
use helppi_scim_go.Prelude.{
  ℕ, zero, suc, ◌+◌, ◌-◌, ◌*◌, ◌/◌, ◌≤◌, ◌<◌, ◌≡◌, refl, Option, none, some, List, [], ◌∷◌, ◌++◌,
  map, Bool, Bool-cases, true, false, not, ◌&&◌, ◌||◌, inl, inr, ◌⊎◌, ℤ, pos, negsuc, length, take,
  drop, contains, subst, ltb, leb, ltb_ℤ, ◌==◌, arith, sym, ap, ◌∙◌, String, ◌=ₛ◌, eq_iff,
  length-append, if◌then◌else◌,
}
use mathlib.Core.List.{append_assoc}
use native.Mathlib.Nat.{le-div_iff_mul-le, add-mul, suc-mul, lt-div-mul-add}
use helppi_scim_go.Exec.{Exec, Result, ok, err, Error}
use helppi_scim_go.Scim.Types.{
  User, ListResponse, Raw, decodes, undecodable, users_from, schema_list,
}
use helppi_scim_go.Directory.Interface.{State}
use helppi_scim_go.Scim.Pages.{
  Paging, first_page, first_id, effective_size, Verdict, finished, more, verdict, turned, handle,
  judged, handled, answered, pages_from, needed, page_limit, settled, list_users, Looping,
}

-- The callback on one record after the other, up to its first error.
unfoldable pub for_each : {S : Type 0} → (User → Exec S (Unit {0})) → List User → Exec S (Unit {0})
for_each fn [] w = (ok tt, w)
for_each fn (u ∷ us) w =
    let (r, w') = fn u w in elim r [ ok _ ↦ for_each fn us w' | err e ↦ (err e, w') ]

-- The answer to a request of `size` records from the 0-based position `k` on.
abbrev pub sheet : List User → ℕ → ℕ → ListResponse
sheet all size k = record {
  schemas = schema_list ∷ [];
  total_results = pos (length all);
  start_index = pos (k + 1);
  items_per_page = pos (length (take size (drop k all)));
  resources = map decodes (take size (drop k all));
}

abbrev pub ids : List User → List String
ids = map (λ u. u.id)

-- No id occurs twice.
abbrev pub Distinct : List User → Type 0
Distinct [] = Unit
Distinct (u ∷ us) = (contains u.id (ids us) ≡ false) × Distinct us

pub length-decodes : (us : List User) → length (map decodes us) ≡ length us
length-decodes [] = refl
length-decodes (u ∷ us) = omega (arith, length-decodes us)

pub drop-append : (xs ys : List User) → drop (length xs) (xs ++ ys) ≡ ys
drop-append [] ys = refl
drop-append (x ∷ xs) ys = drop-append xs ys

pub take-drop : (n : ℕ) (xs : List User) → take n xs ++ drop n xs ≡ xs
take-drop zero xs = refl
take-drop (suc n) [] = refl
take-drop (suc n) (x ∷ xs) = ap (λ l. x ∷ l) (take-drop n xs)

pub length-take-drop :
    (n : ℕ) (xs : List User)
    → (length (take n xs) + length (drop n xs) ≡ length xs)
      × (length (take n xs) ≤ n)
      × ((length (drop n xs) ≡ 0) ⊎ (length (take n xs) ≡ n))
length-take-drop zero xs = ground arith
length-take-drop (suc n) [] = ground arith
length-take-drop (suc n) (x ∷ xs) = ground (arith, length-take-drop n xs)

contains-own :
    (xs ys : List User) (u : User) (k : String)
    → contains k (ids (xs ++ u ∷ ys)) ≡ false
    → u.id =ₛ k ≡ false
unfolding contains
contains-own [] ys u k h = ground arith
contains-own (x ∷ xs) ys u k h = ground (arith, contains-own xs ys u k)

pub contains-middle :
    (xs ys : List User) (u : User) (k : String)
    → Distinct (xs ++ u ∷ ys)
    → contains k (ids xs) ≡ true
    → u.id =ₛ k ≡ false
unfolding contains
contains-middle [] ys u k d h = ground arith
contains-middle (x ∷ xs) ys u k (a, d) h = elim (Bool-cases (x.id =ₛ k)) [
  | inl e ↦ subst (λ j. (u.id =ₛ j) ≡ false) ((eq_iff x.id k).0 e) (contains-own xs ys u x.id a)
  | inr e ↦ contains-middle xs ys u k d (ground arith)
]

-- What the loop decides after a page of an honest server.
pub verdict-honest :
    (size k n : ℕ) (lr : ListResponse) (p : Paging)
    → lr.total_results ≡ pos n
    → p.start_index ≡ k + 1
    → (p.max_pages ≡ 0) ⊎ (p.max_pages ≡ n / size + 8)
    → 0 < n
    → p.pages + 1 < n / size + 8
    → (first_id lr.resources ≡ "") ⊎ ((first_id lr.resources =ₛ p.prev_first_id) ≡ false)
    → verdict size lr p ≡ (
        if ltb (length lr.resources) size || ltb n (k + length lr.resources + 1)
        then finished
        else more)
unfolding verdict turned
verdict-honest size k n lr p total at max some_left few fresh =
    ground (arith, eq_iff (first_id lr.resources) "")

module _ {D X : Type 0} (fn : User → Exec (State D X) (Unit {0})) where
  pub handle-for_each :
      (i : ℕ) (us : List User) (w : State D X) → handle fn i (map decodes us) w ≡ for_each fn us w
  unfolding handle for_each
  handle-for_each i [] w = refl
  handle-for_each i (u ∷ us) w = ground (arith, handle-for_each (i + 1) us (fn u w).1)

  pub for_each-append_ok :
      (xs ys : List User) (w v : State D X)
      → for_each fn xs w ≡ (ok tt, v)
      → for_each fn (xs ++ ys) w ≡ for_each fn ys v
  unfolding for_each
  for_each-append_ok [] ys w v h = ground arith
  for_each-append_ok (x ∷ xs) ys w v h = ground (arith, for_each-append_ok xs ys (fn x w).1 v)

  pub for_each-append_err :
      (xs ys : List User) (w v : State D X) (e : Error)
      → for_each fn xs w ≡ (err e, v)
      → for_each fn (xs ++ ys) w ≡ (err e, v)
  unfolding for_each
  for_each-append_err [] ys w v e h = ground arith
  for_each-append_err (x ∷ xs) ys w v e h = ground (arith, for_each-append_err xs ys (fn x w).1 v e)

  cons_ok :
      (u : User) (r : Result (List User)) (us : List User)
      → (elim r [ ok vs ↦ ok (u ∷ vs) | err e ↦ err e ]) ≡ ok us
      → (vs : List User) × (r ≡ ok vs) × (u ∷ vs ≡ us)
  cons_ok u (ok vs) us h = (vs, refl, ground arith)
  cons_ok u (err e) us h = absurd (ground arith)

  -- Where every record of a page decodes, the loop over the page is the callback on the records that
  -- `Users` returns for it, in order.
  pub handle-users_from :
      (i : ℕ) (l : List Raw) (us : List User) (w : State D X)
      → users_from i l ≡ ok us
      → handle fn i l w ≡ for_each fn us w
  unfolding handle for_each users_from
  handle-users_from i [] us w h = ground arith
  handle-users_from i (undecodable text ∷ l) us w h = absurd (ground arith)
  handle-users_from i (decodes u ∷ l) us w h =
      let (vs, rest, e) = cons_ok u (users_from (i + 1) l) us h in
      rw (← e) (ground (arith, handle-users_from (i + 1) l vs (fn u w).1 rest))
