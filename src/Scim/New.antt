-- ===== src/Scim/New.antt =====
-- scim/client.go, `New`, and `newLimiter` of scim/limiter.go. A URL and a rate per second have types of their own; the
-- HTTP client, the sleep and the backoff, with their defaults, are the network of Scim/Client.
use helppi_scim_go.Prelude.{
  ℕ, zero, suc, negsuc, refl, Bool-cases, inl, inr, subst, String, ◌=ₛ◌, ◌+ₛ◌, Bool, false, ◌≡◌,
  ◌≢◌, arith, ℤ, pos, if◌then◌else◌,
}
use helppi_scim_go.Exec.{Result, ok, err, message, wrap}
use helppi_scim_go.Scim.Client.{Client, new_client}

pub record Options (F : Type 0) : Type 0 where
  pub base_url : String
  pub token : String
  pub max_retries : ℤ
  pub requests_per_second : F
  pub user_agent : String

-- What `New` calls of other packages and of the machine's floating-point numbers.
pub record Platform (U F : Type 0) : Type 0 where
  -- `strings.TrimRight(s, "/")`
  pub trim_slashes : String → String
  pub parse_url : String → Result U
  -- `perSecond <= 0`
  pub is_at_most_zero : F → Bool
  -- `time.Duration(float64(time.Second) / perSecond)`
  pub nanoseconds_per : F → ℕ

-- The fields of the Go struct that are fixed for its lifetime.
pub record Connection (U : Type 0) : Type 0 where
  pub base : U
  pub token : String
  pub user_agent : String
  pub client : Client

module _ {U F : Type 0} (platform : Platform U F) where
  -- `newLimiter`: the interval.
  unfoldable pub limiter_interval : F → ℕ
  limiter_interval rate = if platform.is_at_most_zero rate then 0 else platform.nanoseconds_per rate

  abbrev pub agent_or_default : String → String
  agent_or_default agent = if agent =ₛ "" then "helppi-scim-go/1.0" else agent

  abbrev pub connection : Options F → U → Connection U
  connection opts base = record {
    base = base;
    token = opts.token;
    user_agent = agent_or_default opts.user_agent;
    client = new_client opts.max_retries (limiter_interval opts.requests_per_second);
  }

  unfoldable pub connected : Options F → Result U → Result (Connection U)
  unfolding limiter_interval
  connected opts (err e) = err (wrap "scim: bad BaseURL" e)
  connected opts (ok base) = ok (connection opts base)

  unfoldable pub new : Options F → Result (Connection U)
  unfolding connected
  new opts =
      if opts.base_url =ₛ ""
      then err (message "scim: BaseURL is required")
      else if opts.token =ₛ ""
      then err (message "scim: Token is required")
      else connected opts (platform.parse_url (platform.trim_slashes opts.base_url +ₛ "/"))

  agent_given : (agent : String) → (agent_or_default agent =ₛ "") ≡ false
  agent_given agent = elim (Bool-cases (agent =ₛ "")) [
    | inl missing ↦ rw missing refl
    | inr given ↦ rw (given, given) refl
  ]

  retries_given : (retries : ℤ) (interval : ℕ) → (new_client retries interval).max_retries ≢ pos 0
  unfolding new_client
  retries_given (pos zero) interval = λ e. ground (arith, e)
  retries_given (pos (suc n)) interval = λ e. ground (arith, e)
  retries_given (negsuc n) interval = λ e. ground (arith, e)

  abbrev IsReady : Connection U → Type 0
  IsReady c =
      ((c.token =ₛ "") ≡ false) × ((c.user_agent =ₛ "") ≡ false) × (c.client.max_retries ≢ pos 0)

  connected-IsReady :
      (opts : Options F) (r : Result U) (c : Connection U)
      → (opts.token =ₛ "") ≡ false
      → connected opts r ≡ ok c
      → IsReady c
  unfolding connected
  connected-IsReady opts (err e) c given h = absurd (ground (arith, h))
  connected-IsReady opts (ok base) c given h =
      let e : connection opts base ≡ c = ground (arith, h) in
      subst IsReady e (
        given,
        agent_given opts.user_agent,
        retries_given opts.max_retries (limiter_interval opts.requests_per_second),
      )

  -- A connection that `New` returns has a token, names a user agent, and retries or was told how not to.
  new-IsReady : (opts : Options F) (c : Connection U) → new opts ≡ ok c → IsReady c
  unfolding new
  new-IsReady opts c h = elim (Bool-cases (opts.token =ₛ "")) [
    | inl missing ↦ absurd (ground (arith, h, missing))
    | inr given ↦
        connected-IsReady opts (platform.parse_url (platform.trim_slashes opts.base_url +ₛ "/")) c
          given (ground (arith, h, given))
  ]
