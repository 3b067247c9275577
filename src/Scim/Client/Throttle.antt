-- ===== src/Scim/Client/Throttle.antt =====
-- The slots of the leaky bucket (scim/limiter.go).
use helppi_scim_go.Prelude.{◌+◌, ◌≤◌, ◌<◌, ◌≡◌, arith, ◌⊎◌}
use helppi_scim_go.Scim.Types.{Time}
use helppi_scim_go.Scim.Http.{Library}
use helppi_scim_go.Scim.Client.{Net, Wire, Client, wait_slot, slot}

module _ {N : Type 0} (client : Client) (lib : Library) (net : Net N) where
  -- Where the throttle is on, a call of `wait` takes a slot that is neither in the past nor before the
  -- slot that was reserved, and reserves the next one exactly an interval later, whatever the sleep returns.
  pub wait_slot-spaced :
      (w : Wire N)
      → 0 < client.interval
      → (at : Time) × (w.next ≤ at)
        × (net.now w.net ≤ at)
        × ((at ≡ w.next) ⊎ (at ≡ net.now w.net))
        × ((wait_slot client lib net w).1.next ≡ at + client.interval)
  unfolding wait_slot
  wait_slot-spaced w h =
      (slot w.next (net.now w.net), ground arith, ground arith, ground arith, ground arith)
