-- ===== src/Scim/Client.antt =====
-- scim/client.go, lines 101 to 133 and 206 to 337, and scim/limiter.go: the client's requests. The network,
-- the clock, the sleep and the backoff are parameters, and so is the decoder of a body.
pub mod Retries
pub mod Answers
pub mod Throttle
use helppi_scim_go.Prelude.{
  ℕ, suc, zero, ◌+◌, ◌-◌, String, ◌=ₛ◌, Bool, true, false, not, ◌&&◌, ◌||◌, Option, none, some,
  List, [], ltb, leb, ◌==◌, if◌then◌else◌, ℤ, pos, negsuc, leb_ℤ, contains,
}
use helppi_scim_go.Exec.{Exec, Result, ok, err, Error, message, wrap, scim, context}
use helppi_scim_go.Scim.Types.{
  User, Time, Filter, PatchOp, ListResponse, ProviderConfig, schema_list, new_external_id_patch,
}
use helppi_scim_go.Scim.Http.{
  Request, list_page, get_record, patch_record, provider_config_of, Response, Reply, unreachable,
  response, Library, decode_error, retry_after,
}

-- What the client uses outside its own code, over a state of the outside world.
pub record Net (N : Type 0) : Type 0 where
  pub send : Request → N → Reply × N
  pub context_err : N → Option Error
  pub sleep : ℤ → Exec N (Unit {0})
  pub now : N → Time
  pub backoff : ℕ → N → ℤ × N

-- The outside world and the limiter's `next`.
pub record Wire (N : Type 0) : Type 0 where
  pub net : N
  pub next : Time

-- `MaxRetries`, after `New` has put 4 in place of 0, and the limiter's interval in nanoseconds.
pub record Client : Type 0 where
  pub max_retries : ℤ
  pub interval : ℕ

unfoldable pub new_client : ℤ → ℕ → Client
new_client (pos zero) interval = record { max_retries = pos 4; interval = interval }
new_client retries interval = record { max_retries = retries; interval = interval }

abbrev pub cancelled : Option Error → Result (Unit {0})
cancelled none = ok tt
cancelled (some e) = err e

abbrev pub is_alive : Option Error → Bool
is_alive none = true
is_alive (some _) = false

-- The limiter's slot for a call at an instant: `next`, but not in the past.
abbrev pub slot : Time → Time → Time
slot next now = if ltb next now then now else next

-- The outcome of one request: the wait that the server asks for, whether to try again, and the result.
pub record Attempt (A : Type 0) : Type 0 where
  pub wait : ℤ
  pub retry : Bool
  pub result : Result A

-- `Page`, on what `do` returns.
unfoldable pub checked : Result ListResponse → Result ListResponse
unfolding contains
checked (err e) = err (wrap "list users" e)
checked (ok lr) =
    if contains schema_list lr.schemas
    then ok lr
    else err (message "scim: response is not a ListResponse")

abbrev pub at_least_one : ℤ → ℕ
at_least_one (pos (suc n)) = suc n
at_least_one _ = 1

abbrev pub count_or_default : ℤ → ℕ
count_or_default (pos (suc n)) = suc n
count_or_default _ = 200

module _ {N : Type 0} (client : Client) (lib : Library) (net : Net N) where
  abbrev pub on_net : {A : Type 0} → Exec N A → Exec (Wire N) A
  on_net f w = let (r, n) = f w.net in (r, record w { net = n })

  -- `limiter.wait`
  unfoldable pub wait_slot : Exec (Wire N) (Unit {0})
  wait_slot w =
      if client.interval == 0
      then (cancelled (net.context_err w.net), w)
      else (let now = net.now w.net in
          let at = slot w.next now in
          let w' = record w { next = at + client.interval } in
          if at - now == 0
          then (cancelled (net.context_err w.net), w')
          else on_net (net.sleep (pos (at - now))) w')

  module _ {A : Type 0} (decode : String → Result A) where
    abbrev pub decoded : Result String → Result A
    decoded (err e) = err (wrap "scim: decode" e)
    decoded (ok text) = context "scim: decode" (decode text)

    -- What `attempt` makes of an answer; `now` is the clock's reading for `Retry-After`.
    unfoldable pub judge : Time → Response → Attempt A
    judge now r =
        if r.status == 429 || leb 500 r.status
        then record {
          wait = (retry_after lib now r).0;
          retry = true;
          result = err (scim (decode_error lib r));
        }
        else if leb 400 r.status
        then record { wait = pos 0; retry = false; result = err (scim (decode_error lib r)) }
        else if not (r.content_type =ₛ "") && not (lib.names_json r.content_type)
        then record {
          wait = pos 0;
          retry = false;
          result = err (message "scim: expected a JSON response");
        }
        else record { wait = pos 0; retry = false; result = decoded r.body }

    unfoldable pub replied : Time → Reply → Attempt A
    unfolding judge
    replied now (unreachable e) = record {
      wait = pos 0;
      retry = true;
      result = err (wrap "scim" e);
    }
    replied now (response r) = judge now r

    -- `attempt`
    unfoldable pub attempt : Request → Wire N → Attempt A × Wire N
    unfolding replied
    attempt request w =
        let (reply, n) = net.send request w.net in (replied (net.now n) reply, record w { net = n })

    -- The outcome of `do`, `none` where the fuel ran out.
    abbrev pub Trying : Type 0
    Trying = Option (Result A) × Wire N

    unfoldable pub slept : (Wire N → Trying) → Result (Unit {0}) × Wire N → Trying
    slept again (err e, w) = (some (err e), w)
    slept again (ok _, w) = again w

    abbrev pub pause : ℕ → ℤ → Wire N → ℤ × Wire N
    pause k wait w =
        if leb_ℤ wait (pos 0)
        then (let (d, n) = net.backoff k w.net in (d, record w { net = n }))
        else (wait, w)

    -- Whether `do` goes on after the attempt number `k`; where it does not, it returns the result.
    abbrev pub goes_on : ℕ → Attempt A → Wire N → Bool
    goes_on k a w =
        a.retry && is_alive (net.context_err w.net) && not (leb_ℤ client.max_retries (pos k))

    unfoldable pub attempted : ℕ → (Wire N → Trying) → Attempt A → Wire N → Trying
    unfolding slept
    attempted k again a w =
        if goes_on k a w
        then (let (d, w') = pause k a.wait w in slept again (on_net (net.sleep d) w'))
        else (some a.result, w)

    unfoldable pub round : ℕ → Request → (Wire N → Trying) → Result (Unit {0}) × Wire N → Trying
    unfolding attempt attempted
    round k request again (err e, w) = (some (err e), w)
    round k request again (ok _, w) = let (a, w') = attempt request w in attempted k again a w'

    -- The loop of `do` from the attempt number `k` on, one unit of fuel for each attempt.
    unfoldable pub tries_from : ℕ → ℕ → Request → Wire N → Trying
    unfolding round wait_slot
    tries_from zero k request w = (none, w)
    tries_from (suc fuel) k request w =
        round k request (tries_from fuel (k + 1) request) (wait_slot w)

    unfoldable pub tries : ℤ → ℕ
    tries (pos n) = suc n
    tries (negsuc n) = 1

    -- The result of the loop on the fuel `tries`; the second clause is for a loop that ran out of it.
    unfoldable pub outcome : Option (Result A) → Result A
    outcome (some r) = r
    outcome none = err (message "")

    -- `do`
    unfoldable pub perform : Request → Exec (Wire N) A
    unfolding tries_from tries outcome
    perform request w =
        let (o, w') = tries_from (tries client.max_retries) 0 request w in (outcome o, w')

  unfoldable pub page : (String → Result ListResponse) → Filter → ℤ → ℤ → Exec (Wire N) ListResponse
  unfolding checked
  page decode filter start_index count w =
      let (r, w') =
        perform decode (list_page filter (at_least_one start_index) (count_or_default count)) w in
      (checked r, w')

  unfoldable pub get_user : (String → Result User) → String → Exec (Wire N) User
  get_user decode id w = perform decode (get_record id) w

  unfoldable pub patch : (String → Result User) → String → PatchOp → Exec (Wire N) User
  patch decode id op w = perform decode (patch_record id op) w

  unfoldable pub patch_external_id : (String → Result User) → String → String → Exec (Wire N) User
  unfolding patch new_external_id_patch
  patch_external_id decode id external_id w =
      if external_id =ₛ ""
      then (err (message "scim: refusing to write an empty externalId"), w)
      else patch decode id (new_external_id_patch external_id) w

  unfoldable pub service_provider_config :
      (String → Result ProviderConfig) → Exec (Wire N) ProviderConfig
  service_provider_config decode w = perform decode provider_config_of w
