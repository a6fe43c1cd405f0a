-- ===== src/Worker/Circuit.antt =====
-- src/worker.rs, `RoutingCircuitBreaker`: failing routing candidates are skipped for a while.
pub mod Failures
use linguamesh_linux.Prelude.{
  ℕ, ◌^◌, Option, none, ◌-◌, some, Bool, min, List, if◌then◌else◌, ◌≢◌, ◌≡◌, does, false, arith,
  ◌∷◌, ◌+◌, ltb, leb, [], true, option_cases, length, ◌≤◌, if_cases, ◌∙◌, ◌&&◌, refl, suc,
}
use linguamesh_linux.Prelude.Text.{Text, Text-discrete}
use linguamesh_linux.Worker.{RetryPolicy}

abbrev pub u32_max : ℕ
u32_max = 2 ^ 32 - 1

pub record RoutingCircuitState : Type 0 where
  pub consecutive_failures : ℕ
  pub open_until : Option ℕ

-- `states` is a hash map from the keys of the candidates; an instant is a number of milliseconds.
pub record RoutingCircuitBreaker : Type 0 where
  pub states : Text → Option RoutingCircuitState
  pub policy : RetryPolicy

-- The map after a write at one key.
abbrev pub write :
    Text
    → Option RoutingCircuitState
    → (Text → Option RoutingCircuitState)
    → (Text → Option RoutingCircuitState)
write key v m other = if does (Text-discrete key other) then v else m other

abbrev pub fresh : RoutingCircuitState
fresh = record { consecutive_failures = 0; open_until = none }

abbrev pub or_insert : Option RoutingCircuitState → RoutingCircuitState
or_insert none = fresh
or_insert (some s) = s

unfoldable pub is_open : ℕ → Text → RoutingCircuitBreaker → RoutingCircuitBreaker × Bool
is_open now key b = elim (b.states key) [
  | none ↦ (b, false)
  | some s ↦ elim (s.open_until) [
    | none ↦ (b, false)
    | some until ↦
        if ltb now until
        then (b, true)
        else (record b { states = write key (some fresh) b.states }, false)
  ]
]

-- The state of one candidate after a failure at `now`.
abbrev pub failed_at : RetryPolicy → ℕ → RoutingCircuitState → RoutingCircuitState
failed_at policy now s =
    let n = min (s.consecutive_failures + 1) u32_max in
    record {
      consecutive_failures = n;
      open_until =
          if leb policy.circuit_failure_threshold n
          then some (now + policy.circuit_cooldown_ms)
          else s.open_until;
    }

unfoldable pub record_failure : ℕ → Text → RoutingCircuitBreaker → RoutingCircuitBreaker
record_failure now key b = record b {
  states = write key (some (failed_at b.policy now (or_insert (b.states key)))) b.states;
}

unfoldable pub record_success : Text → RoutingCircuitBreaker → RoutingCircuitBreaker
record_success key b = record b { states = write key none b.states }

-- What the worker does with the breaker.
pub data CircuitOperation : Type 0 where
  check failure : ℕ → Text → CircuitOperation
  success : Text → CircuitOperation

abbrev pub key_of : CircuitOperation → Text
key_of (check now k) = k
key_of (failure now k) = k
key_of (success k) = k

abbrev pub operate : CircuitOperation → RoutingCircuitBreaker → RoutingCircuitBreaker
operate (check now k) b = (is_open now k b).0
operate (failure now k) b = record_failure now k b
operate (success k) b = record_success k b

write_other :
    (k other : Text) (v : Option RoutingCircuitState) (m : Text → Option RoutingCircuitState)
    → k ≢ other
    → write k v m other ≡ m other
write_other k other v m n = ground arith

pub write_same :
    (k : Text) (v : Option RoutingCircuitState) (m : Text → Option RoutingCircuitState)
    → write k v m k ≡ v
write_same k v m = ground arith

is_open-other :
    (now : ℕ) (k : Text) (b : RoutingCircuitBreaker) (other : Text)
    → k ≢ other
    → (is_open now k b).0.states other ≡ b.states other
unfolding is_open
is_open-other now k b other n =
    option_cases Kept (b.states k) (λ _. refl)
      λ s _.
        option_cases Kept (s.open_until) (λ _. refl)
          λ until _.
            if_cases Kept (ltb now until) (λ _. refl)
              (λ _. write_other k other (some fresh) b.states n)
  where
    Kept : RoutingCircuitBreaker × Bool → Type 0
    Kept r = r.0.states other ≡ b.states other

-- No operation on one candidate changes what is known of another one.
pub operate-other :
    (o : CircuitOperation) (b : RoutingCircuitBreaker) (other : Text)
    → key_of o ≢ other
    → (operate o b).states other ≡ b.states other
unfolding is_open record_failure record_success
operate-other (check now k) b other n = is_open-other now k b other n
operate-other (failure now k) b other n =
    write_other k other (some (failed_at b.policy now (or_insert (b.states k)))) b.states n
operate-other (success k) b other n = write_other k other none b.states n
