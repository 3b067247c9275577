-- ===== src/Scim/Http/Waits.antt =====
-- How long the client waits between two attempts.
use helppi_scim_go.Prelude.{
  ℕ, ◌+◌, ◌*◌, ◌^◌, ◌/◌, ◌%◌, ◌≤◌, ◌<◌, ◌≡◌, arith, some, pos, Bool-cases, ltb, inl, inr,
}
use native.Mathlib.Nat.{pow-le-pow_right, mod-eq_of_lt, one-le-pow}
use helppi_scim_go.Scim.Http.{default_backoff, jittered, capped, second, exponential, int64}

int64-small : (n : ℕ) → n < 2 ^ 63 → int64 n ≡ pos n
unfolding int64
int64-small n h = ground arith

exponential-small : (a : ℕ) → a ≤ 34 → exponential a ≡ pos (2 ^ a * 500000000)
unfolding exponential
exponential-small a h =
    let below : 2 ^ a ≤ 2 ^ 34 = pow-le-pow_right (omega arith) h in
    let same : 2 ^ a % 2 ^ 64 ≡ 2 ^ a = mod-eq_of_lt (omega arith) in
    rw same (int64-small (2 ^ a * 500000000) (omega arith))

module _ (random : ℕ → ℕ) (fair : (n : ℕ) → 0 < n → random n < n) where
  jitter-bounds :
      (b : ℕ)
      → 500000000 ≤ b
      → (d : ℕ) × (jittered random (capped (pos b)) ≡ some (pos d))
        × (250000000 ≤ d)
        × (d ≤ 30 * 1000000000)
  jitter-bounds b h = elim (Bool-cases (ltb (30 * second) b)) [
    | inl above ↦ (
      30 * second / 2 + random (30 * second / 2 + 1),
      ground arith,
      omega arith,
      omega (arith, fair (30 * second / 2 + 1)),
    )
    | inr below ↦ (
      b / 2 + random (b / 2 + 1),
      ground arith,
      omega arith,
      (let small : b ≤ 30 * second = ground arith in omega (arith, fair (b / 2 + 1) (omega arith))),
    )
  ]

-- Every wait of `defaultBackoff` before the attempts 0 to 34 is between a quarter of a second and thirty
-- seconds, where `rand.Int64N` returns a number below its positive bound; in particular it does not panic.
pub default_backoff-bounds :
    (random : ℕ → ℕ) (attempt : ℕ)
    → ((n : ℕ) → 0 < n → random n < n)
    → attempt ≤ 34
    → (d : ℕ) × (default_backoff random attempt ≡ some (pos d))
      × (250000000 ≤ d)
      × (d ≤ 30 * 1000000000)
unfolding default_backoff
default_backoff-bounds random a fair h =
    let least : 1 ≤ 2 ^ a = one-le-pow a 2 (omega arith) in
    rw (exponential-small a h) (jitter-bounds random fair (2 ^ a * 500000000) (omega arith))
