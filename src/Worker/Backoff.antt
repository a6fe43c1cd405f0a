-- ===== src/Worker/Backoff.antt =====
-- src/worker.rs, `routing_backoff_delay`: how long the worker waits before the next candidate.
use Prim.Native.Nat.{bit_xor}
use linguamesh_linux.Prelude.{
  ℕ, ◌^◌, min, List, Option, ◌*◌, ◌/◌, ◌∷◌, max, some, ◌%◌, ◌-◌, ◌+◌, if◌then◌else◌, ◌≡◌, none,
  ◌==◌, [], ◌<◌, ◌≤◌, arith, suc, zero,
}
use linguamesh_linux.Worker.{RetryPolicy}

abbrev wrapping_mul : ℕ → ℕ → ℕ
wrapping_mul a b = a * b % 2 ^ 64

abbrev saturating_mul : ℕ → ℕ → ℕ
saturating_mul a b = min (a * b) (2 ^ 64 - 1)

abbrev saturating_add : ℕ → ℕ → ℕ
saturating_add a b = min (a + b) (2 ^ 64 - 1)

-- FNV-1a over the bytes of the key.
abbrev fnv : ℕ → List ℕ → ℕ
fnv hash [] = hash
fnv hash (b ∷ bs) = fnv (wrapping_mul (bit_xor hash b) 1099511628211) bs

unfoldable pub routing_jitter : List ℕ → ℕ → ℕ
routing_jitter key attempt_index =
    bit_xor (fnv 14695981039346656037 key) (wrapping_mul attempt_index 1099511628211)

-- `1_u64 << attempt_index.min(6)`, times the base delay, within the bounds of the policy.
abbrev pub base_ms : RetryPolicy → ℕ → ℕ
base_ms policy attempt_index =
    min (max (saturating_mul policy.base_delay_ms (2 ^ min attempt_index 6)) policy.base_delay_ms)
      policy.max_backoff_ms

abbrev pub jitter_bound : RetryPolicy → ℕ → ℕ
jitter_bound policy attempt_index =
    saturating_mul (base_ms policy attempt_index) policy.jitter_percent / 100

abbrev jitter : RetryPolicy → ℕ → List ℕ → ℕ
jitter policy attempt_index key =
    if jitter_bound policy attempt_index == 0
    then 0
    else routing_jitter key attempt_index % (jitter_bound policy attempt_index + 1)

unfoldable pub routing_backoff_delay : Option ℕ → ℕ → List ℕ → RetryPolicy → ℕ
routing_backoff_delay retry_after_ms attempt_index key policy =
    elim (policy.bounded_retry_after_ms retry_after_ms) [
      | some delay ↦ delay
      | none ↦
          min (saturating_add (base_ms policy attempt_index) (jitter policy attempt_index key))
            policy.max_backoff_ms
    ]

jitter-jitter_bound :
    (policy : RetryPolicy) (n : ℕ) (key : List ℕ) → jitter policy n key ≤ jitter_bound policy n
jitter-jitter_bound policy n key = rest (jitter_bound policy n) (routing_jitter key n)
  where
    rest : (b v : ℕ) → (if b == 0 then 0 else v % (b + 1)) ≤ b
    rest zero v = ground arith
    rest (suc b) v = ground arith

-- The numbers of the delay: the base delay, the doubled one, the maximum and the jitter.
within :
    (base doubled cap j bound : ℕ)
    → cap < 2 ^ 64
    → j ≤ bound
    → (min (min (min (max doubled base) cap + j) (2 ^ 64 - 1)) cap ≤ cap)
      × (min base cap ≤ min (min (min (max doubled base) cap + j) (2 ^ 64 - 1)) cap)
      × (min (min (min (max doubled base) cap + j) (2 ^ 64 - 1)) cap
          ≤ min (max doubled base) cap + bound)
within base doubled cap j bound c h = (omega arith, omega arith, omega arith)

-- Without a usable hint of the provider, the delay is at most the policy's maximum, at least the
-- smaller of its base delay and its maximum, and at most the jitter above the exponential delay.
pub routing_backoff_delay-bounds :
    (retry_after_ms : Option ℕ) (attempt_index : ℕ) (key : List ℕ) (policy : RetryPolicy)
    → policy.bounded_retry_after_ms retry_after_ms ≡ none
    → policy.max_backoff_ms < 2 ^ 64
    → (routing_backoff_delay retry_after_ms attempt_index key policy ≤ policy.max_backoff_ms)
      × (min policy.base_delay_ms policy.max_backoff_ms
          ≤ routing_backoff_delay retry_after_ms attempt_index key policy)
      × (routing_backoff_delay retry_after_ms attempt_index key policy
          ≤ base_ms policy attempt_index + jitter_bound policy attempt_index)
unfolding routing_backoff_delay
routing_backoff_delay-bounds hint n key policy e cap =
    rw (e, routing_backoff_delay)
      (within policy.base_delay_ms (saturating_mul policy.base_delay_ms (2 ^ min n 6))
        policy.max_backoff_ms (jitter policy n key) (jitter_bound policy n) cap
        (jitter-jitter_bound policy n key))
