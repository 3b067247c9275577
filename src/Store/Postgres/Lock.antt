-- ===== src/Store/Postgres/Lock.antt =====
-- store/postgres/lock.go: a cycle that runs under an advisory lock.
pub mod Held
use helppi_scim_go.Prelude.{ℕ, ◌/◌, String, ◌+ₛ◌, Bool, true, false}
use helppi_scim_go.Exec.{Exec, Result, ok, err, Error, message, wrap}
use helppi_scim_go.Store.Postgres.Backend.{Backend}

-- `ErrLockHeld`
abbrev pub lock_held : Error
lock_held = message "postgres: the sync lock is held by another process"

-- `lockKey`, of the 64-bit hash that package hash/fnv computes.
unfoldable pub lock_key : (String → ℕ) → String → ℕ
lock_key hash name = hash name / 2

module _ {D : Type 0} (back : Backend D) (hash : String → ℕ) (partner : String)
    (fn : Exec D (Unit {0})) where
  abbrev pub sync_key : ℕ
  sync_key = lock_key hash ("directory_sync:" +ₛ partner)

  unfoldable pub tried : Result Bool → Exec D (Unit {0})
  unfolding lock_key
  tried (err e) d = (err (wrap "sync lock" e), d)
  tried (ok false) d = (err lock_held, d)
  tried (ok true) d = let (r, d') = fn d in (r, back.unlock sync_key d')

  unfoldable pub connected : Result (Unit {0}) → Exec D (Unit {0})
  unfolding tried lock_key
  connected (err e) d = (err (wrap "sync lock: acquire connection" e), d)
  connected (ok _) d =
      let (r, d') = back.try_lock sync_key d in let (q, d'') = tried r d' in (q, back.release d'')

  -- `WithSyncLock`
  unfoldable pub with_sync_lock : Exec D (Unit {0})
  unfolding connected
  with_sync_lock d = let (r, d') = back.acquire d in connected r d'
