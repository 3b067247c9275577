-- ===== src/Examples/Requests.antt =====
-- The theorems on requests, with a server that is unavailable once and then answers.
use helppi_scim_go.Prelude.{
  ℕ, suc, zero, ◌+◌, ◌*◌, ◌≤◌, ◌≡◌, ◌⊎◌, String, true, some, none, [], ◌∷◌, refl, pos, arith,
}
use helppi_scim_go.Exec.{Result, ok}
use helppi_scim_go.Scim.Types.{ListResponse, schema_list, everything, Time}
use helppi_scim_go.Scim.Http.{
  Request, list_page, Response, response, Library, retry_after, default_backoff,
}
use helppi_scim_go.Scim.Http.Waits.{default_backoff-bounds}
use helppi_scim_go.Scim.Client.{Net, Wire, Client, perform, page, wait_slot, tries_from, tries}
use helppi_scim_go.Scim.Client.Retries.{tries-Ended, Ended}
use helppi_scim_go.Scim.Client.Answers.{
  perform-Explained, Explained, page-IsServedPage, IsServedPage,
}
use helppi_scim_go.Scim.Client.Throttle.{wait_slot-spaced}

abbrev no_records : ListResponse
no_records = record {
  schemas = schema_list ∷ [];
  total_results = pos 0;
  start_index = pos 1;
  items_per_page = pos 0;
  resources = [];
}

abbrev pub library : Library
library = record {
  parse_scim_error = λ _. none;
  parse_time = λ _. none;
  trim_space = λ s. s;
  names_json = λ _. true;
}

abbrev answer : ℕ → Response
answer status = record {
  status = status;
  content_type = "application/scim+json";
  retry_after_header = "";
  body = ok "{}";
}

abbrev served : ℕ → Response
served zero = answer 503
served (suc n) = answer 200

-- The state counts the requests; the first answer is a 503.
abbrev pub net : Net ℕ
net = record {
  send = λ _ n. (response (served n), n + 1);
  context_err = λ _. none;
  sleep = λ _ n. (ok tt, n);
  now = λ _. 9000;
  backoff = λ _ n. (pos 1, n);
}

abbrev decode : String → Result ListResponse
decode text = ok no_records

abbrev pub client : Client
client = record { max_retries = pos 4; interval = 100 }

abbrev first : Wire ℕ
first = record { net = 0; next = 0 }

abbrev later : Wire ℕ
later = record { net = 3; next = 0 }

abbrev request : Request
request = list_page everything 1 200

retried_once : (perform client library net decode request first).1.net ≡ 2
unfolding perform tries_from tries retry_after
retried_once = refl

tries-Ended_example :
    Ended client library net decode (
      tries_from client library net decode
        (tries client library net decode (pos 4))
        0
        request
        first)
tries-Ended_example = tries-Ended client library net decode request first

perform-Explained_example :
    let (r, w') = perform client library net decode request first in
    Explained client library net decode request w'.net r
perform-Explained_example = perform-Explained client library net decode request first

slot_free : wait_slot client library net later ≡ (ok tt, record { net = 3; next = 9100 })
unfolding wait_slot
slot_free = refl

page-IsServedPage_example :
    let (r, w') = page client library net decode everything (pos 1) (pos 200) first in
    IsServedPage client library net decode everything (pos 1) (pos 200) w'.net r
page-IsServedPage_example =
    page-IsServedPage client library net decode everything (pos 1) (pos 200) first

wait_slot-spaced_example :
    (at : Time) × (0 ≤ at)
    × (9000 ≤ at)
    × ((at ≡ 0) ⊎ (at ≡ 9000))
    × ((wait_slot client library net first).1.next ≡ at + 100)
wait_slot-spaced_example = wait_slot-spaced client library net first (omega arith)

-- The least number that `rand.Int64N` may return.
abbrev least : ℕ → ℕ
least _ = 0

default_backoff-bounds_example :
    (d : ℕ) × (default_backoff least 3 ≡ some (pos d)) × (250000000 ≤ d) × (d ≤ 30 * 1000000000)
default_backoff-bounds_example = default_backoff-bounds least 3 (λ n h. h) (omega arith)

-- The shift of attempt 35 wraps around, and `rand.Int64N` panics.
backoff_panics : default_backoff least 35 ≡ none
unfolding default_backoff
backoff_panics = refl
