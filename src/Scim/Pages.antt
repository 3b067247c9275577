-- ===== src/Scim/Pages.antt =====
-- scim/client.go, lines 135 to 204: `ListUsers` over the pages that `Page` fetches.
pub mod Termination
pub mod Runs
pub mod Delivery
use helppi_scim_go.Prelude.{
  ℕ, zero, suc, ◌+◌, ◌/◌, String, ◌+ₛ◌, ◌=ₛ◌, Bool, true, false, not, ◌&&◌, ◌||◌, Option, none,
  some, List, [], ◌∷◌, ltb, leb, ◌==◌, if◌then◌else◌, ℤ, pos, negsuc, ltb_ℤ, length, itoa,
}
use helppi_scim_go.Exec.{Exec, Result, ok, err, Error, message, wrap}
use helppi_scim_go.Scim.Types.{User, Raw, decodes, undecodable, ListResponse}
use helppi_scim_go.Directory.Interface.{State}

-- `pageSize`, or `DefaultPageSize` where it is not positive.
unfoldable pub effective_size : ℤ → ℕ
effective_size (pos zero) = 200
effective_size (pos (suc n)) = suc n
effective_size (negsuc n) = 200

-- The local variables of the loop; `max_pages` is 0 until the first response sets it.
pub record Paging : Type 0 where
  pub start_index : ℕ
  pub pages : ℕ
  pub max_pages : ℕ
  pub prev_first_id : String

abbrev pub first_page : Paging
first_page = record { start_index = 1; pages = 0; max_pages = 0; prev_first_id = "" }

abbrev pub first_id : List Raw → String
first_id (decodes u ∷ l) = u.id
first_id _ = ""

-- `lr.TotalResults/pageSize + 8`, for a total that is positive, without the wrap-around of `int` that the source has
-- for pages of one record and a total within 8 of 2 ^ 63.
abbrev pub page_limit : ℕ → ℤ → ℕ
page_limit size (pos n) = n / size + 8
page_limit size (negsuc n) = 0

-- The loop's variables after one more page.
unfoldable pub turned : ℕ → ListResponse → Paging → Paging
turned size lr p = record {
  start_index = p.start_index + length lr.resources;
  pages = p.pages + 1;
  max_pages =
      if p.max_pages == 0 && ltb_ℤ (pos 0) lr.total_results
      then page_limit size lr.total_results
      else p.max_pages;
  prev_first_id = first_id lr.resources;
}

-- What the loop does once a page is handled: stop with an error, stop, or go on.
pub data Verdict : Type 0 where
  broken : Error → Verdict
  finished : Verdict
  more : Verdict

unfoldable pub verdict : ℕ → ListResponse → Paging → Verdict
unfolding turned
verdict size lr p =
    let q = turned size lr p in
    if not (q.prev_first_id =ₛ "") && q.prev_first_id =ₛ p.prev_first_id
    then broken (message "scim: directory returned the same first record twice")
    else if ltb 0 q.max_pages && leb q.max_pages q.pages
    then broken (message "scim: pagination did not terminate")
    else if ltb (length lr.resources) size || ltb_ℤ lr.total_results (pos q.start_index)
    then finished
    else more

module _ {D X : Type 0} (fn : User → Exec (State D X) (Unit {0})) where
  -- The loop over the records of a page; `i` is the index of the next one.
  unfoldable pub handle : ℕ → List Raw → Exec (State D X) (Unit {0})
  handle i [] w = (ok tt, w)
  handle i (undecodable text ∷ l) w = (err (wrap ("decode record " +ₛ itoa i) (message text)), w)
  handle i (decodes u ∷ l) w =
      let (r, w') = fn u w in elim r [ ok _ ↦ handle (i + 1) l w' | err e ↦ (err e, w') ]

  module _ (fetch : ℕ → Exec D ListResponse) (size : ℕ) where
    abbrev pub Looping : Type 0
    Looping = Option (Result (Unit {0})) × State D X

    unfoldable pub judged : (Paging → State D X → Looping) → Verdict → Paging → State D X → Looping
    judged again (broken e) q w = (some (err e), w)
    judged again finished q w = (some (ok tt), w)
    judged again more q w = again q w

    unfoldable pub handled :
        (Paging → State D X → Looping)
        → ListResponse
        → Paging
        → Result (Unit {0}) × State D X
        → Looping
    handled again lr p (ok _, w) = judged again (verdict size lr p) (turned size lr p) w
    handled again lr p (err e, w) = (some (err e), w)

    unfoldable pub answered :
        (Paging → State D X → Looping) → Paging → X → Result ListResponse × D → Looping
    answered again p x (err e, d) = (some (err e), record { dir = d; rest = x })
    answered again p x (ok lr, d) =
        let w : State D X = record { dir = d; rest = x } in
        if length lr.resources == 0
        then (some (ok tt), w)
        else handled again lr p (handle 0 lr.resources w)

    -- One round for each unit of fuel; `none` as the result means that the fuel ran out.
    unfoldable pub pages_from : ℕ → Paging → State D X → Looping
    pages_from zero p w = (none, w)
    pages_from (suc fuel) p w = answered (pages_from fuel) p w.rest (fetch p.start_index w.dir)

-- Fuel for the loop, from the response to the first request: as many pages as the loop itself allows.
unfoldable pub needed : ℕ → Result ListResponse → ℕ
needed size (ok lr) = suc (page_limit size lr.total_results)
needed size (err e) = 1

-- The result of the loop on the fuel `needed`; the second clause is for a loop that ran out of it.
unfoldable pub settled : Option (Result (Unit {0})) → Result (Unit {0})
settled (some r) = r
settled none = err (message "")

-- `ListUsers` for pages that `fetch` returns.
unfoldable pub list_users :
    {D X : Type 0}
    → (ℕ → Exec D ListResponse)
    → ℤ
    → (User → Exec (State D X) (Unit {0}))
    → Exec (State D X) (Unit {0})
list_users fetch page_size fn w =
    let size = effective_size page_size in
    let (o, w') = pages_from fn fetch size (needed size (fetch 1 w.dir).0) first_page w in
    (settled o, w')
