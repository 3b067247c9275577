-- ===== src/Scim/Client/Answers.antt =====
-- What the result of a request says about the answers of the server.
use helppi_scim_go.Prelude.{
  ℕ, suc, zero, ◌+◌, ◌<◌, ◌≤ℤ◌, ◌≡◌, ◌⊎◌, inl, inr, refl, arith, String, true, false, Option, some,
  Bool-cases, ℤ, pos, negsuc, eq_iff, contains,
}
use helppi_scim_go.Exec.{Result, ok, err, status_code}
use helppi_scim_go.Scim.Types.{Time, ListResponse, Filter, schema_list}
use helppi_scim_go.Scim.Http.{
  Request, list_page, Response, Reply, response, unreachable, Library, decode_error, body_error,
  parsed_error,
}
use helppi_scim_go.Scim.Client.{
  Net, Wire, Client, wait_slot, judge, Attempt, attempt, replied, Trying, decoded, slept, attempted,
  pause, goes_on, round, tries_from, tries, outcome, perform, on_net, page, checked, at_least_one,
  count_or_default,
}

parsed-status :
    (lib : Library) (n : ℕ) (body : String) (o : Option _)
    → (parsed_error lib n body o).http_status ≡ pos n
unfolding parsed_error
parsed-status lib n body o = ground arith

-- The error of an answer has the transport's status as its code, whatever the body says.
pub decode_error-code :
    (lib : Library) (r : Response) → 0 < r.status → status_code (decode_error lib r) ≡ pos r.status
unfolding decode_error body_error status_code
decode_error-code lib r h = ground (arith, parsed-status lib r.status)

module _ {N A : Type 0} (client : Client) (lib : Library) (net : Net N)
    (decode : String → Result A) where
  -- A success that one answer explains: below 400, not declared as something else than JSON, decoded.
  pub record Explains (a : A) (r : Response) : Type 0 where
    pub accepted : r.status < 400
    pub declared : (r.content_type ≡ "") ⊎ (lib.names_json r.content_type ≡ true)
    pub text : String
    pub body_read : r.body ≡ ok text
    pub value : decode text ≡ ok a

  -- A success in a state of the outside world is explained by the server's answer to the request: sending the request
  -- was the last that was done to that world, and the answer explains the value.
  abbrev pub Explained : Request → N → Result A → Type 0
  Explained request end (ok a) =
      (n : N) × (r : Response) × (net.send request n ≡ (response r, end)) × Explains a r
  Explained request end (err e) = Unit

  judge-ok :
      (now : Time) (r : Response) (a : A)
      → (judge client lib net decode now r).result ≡ ok a
      → (r.status < 400)
        × ((r.content_type ≡ "") ⊎ (lib.names_json r.content_type ≡ true))
        × (decoded client lib net decode r.body ≡ ok a)
  unfolding judge
  judge-ok now r a e = ground (arith, eq_iff r.content_type "")

  decoded-ok :
      (b : Result String) (a : A)
      → decoded client lib net decode b ≡ ok a
      → (text : String) × (b ≡ ok text) × (decode text ≡ ok a)
  decoded-ok (ok text) a e = (text, refl, ground arith)
  decoded-ok (err x) a e = absurd (ground arith)

  judge-Explains :
      (now : Time) (r : Response) (a : A)
      → (judge client lib net decode now r).result ≡ ok a
      → Explains a r
  judge-Explains now r a h =
      let (accepted, declared, value) = judge-ok now r a h in
      let (text, body, e) = decoded-ok r.body a value in
      record { accepted = accepted; declared = declared; text = text; body_read = body; value = e }

  judge-Explained :
      (request : Request) (n end : N) (now : Time) (r : Response) (q : Result A)
      → net.send request n ≡ (response r, end)
      → (judge client lib net decode now r).result ≡ q
      → Explained request end q
  judge-Explained request n end now r (err e) sent h = tt
  judge-Explained request n end now r (ok a) sent h = (n, r, sent, judge-Explains now r a h)

  replied-Explained :
      (request : Request) (n end : N) (now : Time) (y : Reply)
      → net.send request n ≡ (y, end)
      → Explained request end (replied client lib net decode now y).result
  unfolding replied
  replied-Explained request n end now (unreachable e) sent = tt
  replied-Explained request n end now (response r) sent =
      judge-Explained request n end now r (judge client lib net decode now r).result sent refl

  abbrev Loop : Type 0
  Loop = Wire N → Trying client lib net decode

  abbrev EndsExplained : Request → Trying client lib net decode → Type 0
  EndsExplained request (o, w) = Explained request w.net (outcome client lib net decode o)

  abbrev Sound : Request → Loop → Type 0
  Sound request again = (v : Wire N) → EndsExplained request (again v)

  slept-Explained :
      (request : Request) (again : Loop) (r : Result (Unit {0})) (w : Wire N)
      → Sound request again
      → EndsExplained request (slept client lib net decode again (r, w))
  unfolding slept outcome
  slept-Explained request again (ok x) w h = h w
  slept-Explained request again (err e) w h = tt

  attempted-Explained :
      (request : Request) (k : ℕ) (again : Loop) (a : Attempt A) (w : Wire N)
      → Sound request again
      → Explained request w.net a.result
      → EndsExplained request (attempted client lib net decode k again a w)
  unfolding attempted outcome
  attempted-Explained request k again a w h e =
      elim (Bool-cases (goes_on client lib net decode k a w)) [
        | inl on ↦
            (let (d, w') = pause client lib net decode k a.wait w in
              let (r, v) = on_net client lib net (net.sleep d) w' in
              rw on (slept-Explained request again r v h))
        | inr off ↦ rw off e
      ]

  round-Explained :
      (k : ℕ) (request : Request) (again : Loop) (r : Result (Unit {0})) (w : Wire N)
      → Sound request again
      → EndsExplained request (round client lib net decode k request again (r, w))
  unfolding round outcome attempt
  round-Explained k request again (ok x) w h =
      let (y, n) = net.send request w.net in
      attempted-Explained request k again (replied client lib net decode (net.now n) y)
        (record w { net = n }) h (replied-Explained request w.net n (net.now n) y refl)
  round-Explained k request again (err e) w h = tt

  tries_from-Explained :
      (fuel k : ℕ) (request : Request)
      → Sound request (tries_from client lib net decode fuel k request)
  unfolding tries_from outcome
  tries_from-Explained zero k request w = tt
  tries_from-Explained (suc fuel) k request w =
      let (r, v) = wait_slot client lib net w in
      round-Explained k request _ r v (tries_from-Explained fuel (k + 1) request)

  -- A request succeeds only with the decoded body of the answer that the server gave to it when it was last sent, after
  -- which nothing more was done to the outside world; that answer is below 400 and is not declared as anything but JSON.
  pub perform-Explained :
      (request : Request) (w : Wire N)
      → let (r, w') = perform client lib net decode request w in Explained request w'.net r
  unfolding perform
  perform-Explained request w = tries_from-Explained _ 0 request w

  judge-retry :
      (now : Time) (r : Response)
      → r.status < 500
      → ¬ (r.status ≡ 429)
      → (judge client lib net decode now r).retry ≡ false
  unfolding judge
  judge-retry now r low final = ground arith

  tries-suc : (z : ℤ) → (f : ℕ) × (tries client lib net decode z ≡ suc f)
  unfolding tries
  tries-suc (pos n) = (n, refl)
  tries-suc (negsuc n) = (0, refl)

  round-final :
      (k : ℕ) (request : Request) (again : Loop) (w : Wire N) (r : Response) (n : N)
      → net.send request w.net ≡ (response r, n)
      → r.status < 500
      → ¬ (r.status ≡ 429)
      → round client lib net decode k request again (ok tt, w)
        ≡ (some (judge client lib net decode (net.now n) r).result, record w { net = n })
  unfolding round attempt attempted replied
  round-final k request again w r n sent low final =
      rw sent (rw (judge-retry (net.now n) r low final) refl)

  -- An answer that is neither 429 nor a server error is final: where the throttle lets the request
  -- pass, it is sent once, and its answer is the result.
  pub perform-final :
      (request : Request) (w w₁ : Wire N) (r : Response) (n : N)
      → wait_slot client lib net w ≡ (ok tt, w₁)
      → net.send request w₁.net ≡ (response r, n)
      → r.status < 500
      → ¬ (r.status ≡ 429)
      → perform client lib net decode request w
        ≡ ((judge client lib net decode (net.now n) r).result, record w₁ { net = n })
  unfolding perform outcome tries_from
  perform-final request w w₁ r n slot sent low final =
      let (f, e) = tries-suc client.max_retries in
      rw (e, slot)
        (rw
          (round-final 0 request (tries_from client lib net decode f 1 request) w₁ r n sent low
            final)
          refl)

-- The index that is sent for a start index: itself, or 1 where it is not positive.
abbrev pub StartsAt : ℤ → ℕ → Type 0
StartsAt asked sent = ((0 < sent) × (asked ≡ pos sent)) ⊎ ((asked ≤ℤ pos 0) × (sent ≡ 1))

-- The page size that is sent for a count: itself, or the default where it is not positive.
abbrev pub Counts : ℤ → ℕ → Type 0
Counts asked sent = ((0 < sent) × (asked ≡ pos sent)) ⊎ ((asked ≤ℤ pos 0) × (sent ≡ 200))

at_least_one-StartsAt : (z : ℤ) → StartsAt z (at_least_one z)
at_least_one-StartsAt (pos zero) = inr (omega arith, refl)
at_least_one-StartsAt (pos (suc n)) = inl (omega arith, refl)
at_least_one-StartsAt (negsuc n) = inr (omega arith, refl)

count_or_default-Counts : (z : ℤ) → Counts z (count_or_default z)
count_or_default-Counts (pos zero) = inr (omega arith, refl)
count_or_default-Counts (pos (suc n)) = inl (omega arith, refl)
count_or_default-Counts (negsuc n) = inr (omega arith, refl)

module _ {N : Type 0} (client : Client) (lib : Library) (net : Net N)
    (decode : String → Result ListResponse) where
  -- A list response that the server's answer to a request for that page explains.
  abbrev pub IsServedPage : Filter → ℤ → ℤ → N → Result ListResponse → Type 0
  IsServedPage filter start_index count end (ok lr) =
      (contains schema_list lr.schemas ≡ true)
      × (i : ℕ) × (size : ℕ) × StartsAt start_index i
      × Counts count size
      × Explained client lib net decode (list_page filter i size) end (ok lr)
  IsServedPage filter start_index count end (err e) = Unit

  checked-IsServedPage :
      (filter : Filter) (start_index count : ℤ) (end : N) (r : Result ListResponse)
      → Explained client lib net decode
          (list_page filter (at_least_one start_index) (count_or_default count))
          end
          r
      → IsServedPage filter start_index count end (checked r)
  unfolding checked
  checked-IsServedPage filter start_index count end (err e) h = tt
  checked-IsServedPage filter start_index count end (ok lr) h =
      elim (Bool-cases (contains schema_list lr.schemas)) [
        | inl lists ↦ rw lists (
          lists,
          at_least_one start_index,
          count_or_default count,
          at_least_one-StartsAt start_index,
          count_or_default-Counts count,
          h,
        )
        | inr other ↦ rw other tt
      ]

  -- A page that `Page` returns is a list response, and the decoded body of the answer that the server gave to the
  -- request for that page when it was last sent: the page from the start index on, or from 1 where that is not positive,
  -- of the count, or of 200 where that is not positive. The answer is below 400 and not declared as anything but JSON.
  pub page-IsServedPage :
      (filter : Filter) (start_index count : ℤ) (w : Wire N)
      → let (r, w') = page client lib net decode filter start_index count w in
        IsServedPage filter start_index count w'.net r
  unfolding page
  page-IsServedPage filter start_index count w =
      let request = list_page filter (at_least_one start_index) (count_or_default count) in
      let (r, w') = perform client lib net decode request w in
      checked-IsServedPage filter start_index count w'.net r
        (perform-Explained client lib net decode request w)
