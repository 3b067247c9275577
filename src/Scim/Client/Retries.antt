-- ===== src/Scim/Client/Retries.antt =====
-- The retry loop of `do` (scim/client.go): its end, and the number of requests that it sends.
use helppi_scim_go.Prelude.{
  ℕ, suc, zero, ◌+◌, ◌≤◌, ◌<◌, ◌≡◌, inl, inr, refl, arith, String, false, some, Bool-cases, ℤ, pos,
  negsuc, leb_ℤ, pos_part,
}
use helppi_scim_go.Exec.{Result, ok, err}
use helppi_scim_go.Scim.Http.{Request, Library}
use helppi_scim_go.Scim.Client.{
  Net, Wire, Client, wait_slot, Attempt, attempt, Trying, slept, attempted, pause, goes_on, round,
  tries_from, tries, on_net,
}

module _ {N A : Type 0} (client : Client) (lib : Library) (net : Net N)
    (decode : String → Result A) where
  abbrev Loop : Type 0
  Loop = Wire N → Trying client lib net decode

  abbrev pub Ended : Trying client lib net decode → Type 0
  Ended (o, w) = (r : Result A) × (o ≡ some r)

  slept-Ended :
      (again : Loop) (r : Result (Unit {0})) (w : Wire N)
      → ((v : Wire N) → Ended (again v))
      → Ended (slept client lib net decode again (r, w))
  unfolding slept
  slept-Ended again (ok x) w h = h w
  slept-Ended again (err e) w h = (err e, refl)

  attempted-Ended :
      (k : ℕ) (again : Loop) (a : Attempt A) (w : Wire N)
      → (leb_ℤ client.max_retries (pos k) ≡ false → (v : Wire N) → Ended (again v))
      → Ended (attempted client lib net decode k again a w)
  unfolding attempted
  attempted-Ended k again a w h = elim (Bool-cases (goes_on client lib net decode k a w)) [
    | inl on ↦
        (let (d, w') = pause client lib net decode k a.wait w in
          let (r, v) = on_net client lib net (net.sleep d) w' in
          rw on (slept-Ended again r v (h (ground arith))))
    | inr off ↦ rw off (a.result, refl)
  ]

  round-Ended :
      (k : ℕ) (request : Request) (again : Loop) (r : Result (Unit {0})) (w : Wire N)
      → (leb_ℤ client.max_retries (pos k) ≡ false → (v : Wire N) → Ended (again v))
      → Ended (round client lib net decode k request again (r, w))
  unfolding round
  round-Ended k request again (ok x) w h =
      let (a, v) = attempt client lib net decode request w in attempted-Ended k again a v h
  round-Ended k request again (err e) w h = (err e, refl)

  below_limit : (z : ℤ) (k : ℕ) → leb_ℤ z (pos k) ≡ false → k < pos_part z
  below_limit (pos n) k h = ground arith
  below_limit (negsuc n) k h = ground arith

  enough : (z : ℤ) → pos_part z < 0 + tries client lib net decode z
  unfolding tries
  enough (pos n) = omega arith
  enough (negsuc n) = omega arith

  tries_from-Ended :
      (fuel k : ℕ) (request : Request) (w : Wire N)
      → k ≤ pos_part client.max_retries
      → pos_part client.max_retries < k + fuel
      → Ended (tries_from client lib net decode fuel k request w)
  unfolding tries_from
  tries_from-Ended zero k request w a b = absurd (omega arith)
  tries_from-Ended (suc fuel) k request w a b =
      let (r, v) = wait_slot client lib net w in
      round-Ended k request _ r v (λ below x.
        tries_from-Ended fuel (k + 1) request x
          (omega (arith, below_limit client.max_retries k below)) (omega arith))

  -- `do` returns for every server, every clock and every limit of retries: `tries` is enough fuel.
  pub tries-Ended :
      (request : Request) (w : Wire N)
      → Ended (
          tries_from client lib net decode
            (tries client lib net decode client.max_retries)
            0
            request
            w)
  unfolding tries
  tries-Ended request w = tries_from-Ended _ 0 request w (omega arith) (enough client.max_retries)

  -- How many requests were sent, by a count that only sending moves.
  module _ (sends : N → ℕ) (one : (x : Request) (n : N) → sends (net.send x n).1 ≡ sends n + 1)
      (asleep : (d : ℤ) (n : N) → sends (net.sleep d n).1 ≡ sends n)
      (idle : (k : ℕ) (n : N) → sends (net.backoff k n).1 ≡ sends n) where
    Within : ℕ → Loop → Type 0
    Within b again = (v : Wire N) → sends (again v).1.net ≤ sends v.net + b
