-- ===== src/Scim/Service/Reading.antt =====
-- What the client's `ListUsers` (scim/client.go) does to the network, the caller and the callback.
use helppi_scim_go.Prelude.{
  leb_ℤ, ℕ, zero, suc, ◌+◌, ◌-◌, String, Bool-cases, inl, inr, ℤ, pos, ◌==◌,
}
use helppi_scim_go.Exec.{Result, ok, err, Exec}
use helppi_scim_go.Scim.Types.{User, Filter, ListResponse}
use helppi_scim_go.Scim.Http.{Request, list_page, Library}
use helppi_scim_go.Scim.Client.{
  Client, Net, Wire, slot, wait_slot, Attempt, attempt, goes_on, pause, slept, attempted, round,
  tries_from, perform, page, Trying, tries, at_least_one, count_or_default,
}
use helppi_scim_go.Scim.Pages.{effective_size}
use helppi_scim_go.Scim.Pages.Runs.{Runs, list_users-Runs}
use helppi_scim_go.Scim.Service.{client_directory}
use helppi_scim_go.Directory.Interface.{State}
use helppi_scim_go.Directory.Run.{DirectoryLaws}

-- The requests for a page, the sleeps and the backoff move the outside world as reading it may move it.
pub record OnlyReads {N : Type 0} (net : Net N) : Type 1 where
  pub Reads : N → N → Type 0
  pub Reads-refl : (n : N) → Reads n n
  pub Reads-trans : (n m k : N) → Reads n m → Reads m k → Reads n k
  pub list_Reads :
      (filter : Filter) (start_index count : ℕ) (n : N)
      → Reads n (net.send (list_page filter start_index count) n).1
  pub sleep_Reads : (d : ℤ) (n : N) → Reads n (net.sleep d n).1
  pub backoff_Reads : (k : ℕ) (n : N) → Reads n (net.backoff k n).1

module _ {N : Type 0} (client : Client) (lib : Library) (net : Net N) (only : OnlyReads net) where
  open only use {Reads, Reads-refl, Reads-trans}

  abbrev pub WireReads : Wire N → Wire N → Type 0
  WireReads w v = Reads w.net v.net

  wait_slot-WireReads : (w : Wire N) → WireReads w (wait_slot client lib net w).1
  unfolding wait_slot
  wait_slot-WireReads w =
      let at = slot w.next (net.now w.net) in
      elim (Bool-cases (client.interval == 0)) [
        | inl free ↦ rw free (Reads-refl w.net)
        | inr throttled ↦ elim (Bool-cases (at - net.now w.net == 0)) [
          | inl now ↦ rw (throttled, now) (Reads-refl w.net)
          | inr later ↦ rw (throttled, later) (only.sleep_Reads (pos (at - net.now w.net)) w.net)
        ]
      ]

  module _ {A : Type 0} (decode : String → Result A) (request : Request)
      (read : (n : N) → Reads n (net.send request n).1) where
    pause-WireReads :
        (k : ℕ) (wait : ℤ) (w : Wire N) → WireReads w (pause client lib net decode k wait w).1
    pause-WireReads k wait w = elim (Bool-cases (leb_ℤ wait (pos 0))) [
      | inl unset ↦ rw unset (only.backoff_Reads k w.net)
      | inr asked ↦ rw asked (Reads-refl w.net)
    ]

    slept-WireReads :
        (again : Wire N → Trying client lib net decode) (w : Wire N) (r : Result (Unit {0}))
        (v : Wire N)
        → ((x : Wire N) → WireReads x (again x).1)
        → WireReads w v
        → WireReads w (slept client lib net decode again (r, v)).1
    unfolding slept
    slept-WireReads again w (ok _) v h read = Reads-trans w.net v.net (again v).1.net read (h v)
    slept-WireReads again w (err e) v h read = read

    attempted-WireReads :
        (k : ℕ) (again : Wire N → Trying client lib net decode) (a : Attempt A) (w : Wire N)
        → ((v : Wire N) → WireReads v (again v).1)
        → WireReads w (attempted client lib net decode k again a w).1
    unfolding attempted
    attempted-WireReads k again a w h =
        let (d, v) = pause client lib net decode k a.wait w in
        let (r, n) = net.sleep d v.net in
        let waited : WireReads w (record v { net = n }) =
          Reads-trans w.net v.net n (pause-WireReads k a.wait w) (only.sleep_Reads d v.net) in
        elim (Bool-cases (goes_on client lib net decode k a w)) [
          | inl on ↦ rw on (slept-WireReads again w r (record v { net = n }) h waited)
          | inr off ↦ rw off (Reads-refl w.net)
        ]

    round-WireReads :
        (k : ℕ) (again : Wire N → Trying client lib net decode) (w : Wire N) (r : Result (Unit {0}))
        (v : Wire N)
        → ((x : Wire N) → WireReads x (again x).1)
        → WireReads w v
        → WireReads w (round client lib net decode k request again (r, v)).1
    unfolding round attempt
    round-WireReads k again w (err e) v h before = before
    round-WireReads k again w (ok _) v h before =
        let (a, x) = attempt client lib net decode request v in
        Reads-trans w.net x.net _ (Reads-trans w.net v.net x.net before (read v.net))
          (attempted-WireReads k again a x h)

    tries_from-WireReads :
        (fuel k : ℕ) (w : Wire N)
        → WireReads w (tries_from client lib net decode fuel k request w).1
    unfolding tries_from
    tries_from-WireReads zero k w = Reads-refl w.net
    tries_from-WireReads (suc fuel) k w =
        let (r, v) = wait_slot client lib net w in
        round-WireReads k (tries_from client lib net decode fuel (k + 1) request) w r v
          (tries_from-WireReads fuel (k + 1)) (wait_slot-WireReads w)

    perform-WireReads : (w : Wire N) → WireReads w (perform client lib net decode request w).1
    unfolding perform tries
    perform-WireReads w = tries_from-WireReads (tries client lib net decode client.max_retries) 0 w

  page-WireReads :
      (decode : String → Result ListResponse) (filter : Filter) (i size : ℤ) (w : Wire N)
      → WireReads w (page client lib net decode filter i size w).1
  unfolding page
  page-WireReads decode filter i size w =
      perform-WireReads decode (list_page filter (at_least_one i) (count_or_default size))
        (only.list_Reads filter (at_least_one i) (count_or_default size)) w

  module _ (decode_list : String → Result ListResponse) (decode_user : String → Result User) where
    -- Where the requests for a page, the sleeps and the backoff only read, a walk of the client's `ListUsers`, with
    -- its throttle and its retries, hands records to the callback one at a time, and nothing else changes the caller's
    -- state; an error of the callback is the last thing that happens, and is returned unchanged.
    pub client-Runs :
        (X : Type 0) (filter : Filter) (size : ℤ) (fn : User → Exec (State (Wire N) X) (Unit {0}))
        (w : State (Wire N) X)
        → let (r, w') =
            (client_directory client lib net decode_list decode_user).list_users X filter size fn
              w in
          Runs WireReads fn w r w'
    client-Runs X filter size fn w =
        list_users-Runs WireReads fn (λ v. Reads-refl v.net)
          (λ u v x p q. Reads-trans u.net v.net x.net p q)
          (λ n. page client lib net decode_list filter (pos n) (pos (effective_size size)))
          (λ n. page-WireReads decode_list filter (pos n) (pos (effective_size size))) size w

    -- So the client is a directory for the theorems on cycles.
    unfoldable pub client_laws :
        DirectoryLaws (client_directory client lib net decode_list decode_user)
    client_laws = record {
      Reads = WireReads;
      Reads-refl = λ w. Reads-refl w.net;
      Reads-trans = λ u v x p q. Reads-trans u.net v.net x.net p q;
      list_users_runs = client-Runs;
    }
