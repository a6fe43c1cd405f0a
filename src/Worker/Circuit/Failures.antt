-- ===== src/Worker/Circuit/Failures.antt =====
-- src/worker.rs, `RoutingCircuitBreaker`: when failures open the circuit of a candidate, and what
-- closes it again.
use linguamesh_linux.Prelude.{
  ℕ, List, none, some, [], ◌∷◌, Bool, ◌≡◌, inl, inr, refl, sym, ap, min, false, ◌≤◌, if◌then◌else◌,
  length, suc, ltb, leb, ◌∙◌, true, ◌+◌, ◌&&◌, arith, Option-cases,
}
use linguamesh_linux.Prelude.Text.{Text}
use linguamesh_linux.Worker.{RetryPolicy}
use linguamesh_linux.Worker.Circuit.{
  RoutingCircuitState, RoutingCircuitBreaker, write, write_same, fresh, or_insert, failed_at,
  u32_max, is_open, record_failure, record_success,
}

-- Failures of one candidate at the instants of a list, the last one first.
abbrev pub failures : Text → List ℕ → RoutingCircuitBreaker → RoutingCircuitBreaker
failures key [] b = b
failures key (t ∷ ts) b = record_failure t key (failures key ts b)

-- What the breaker knows of a candidate after its failures.
abbrev after : RetryPolicy → List ℕ → RoutingCircuitState
after policy [] = fresh
after policy (t ∷ ts) = record {
  consecutive_failures = min (length (t ∷ ts)) u32_max;
  open_until =
      if leb policy.circuit_failure_threshold (length (t ∷ ts))
      then some (t + policy.circuit_cooldown_ms)
      else none;
}

failures-policy :
    (key : Text) (ts : List ℕ) (b : RoutingCircuitBreaker) → (failures key ts b).policy ≡ b.policy
unfolding record_failure
failures-policy key [] b = refl
failures-policy key (t ∷ ts) b = failures-policy key ts b

-- One failure more than `n + 1`, with a counter that stops at `m`.
grown :
    (k n m x y : ℕ)
    → k ≤ m
    → (min (min (suc n) m + 1) m ≡ min (suc (suc n)) m)
      × ((if leb k (min (min (suc n) m + 1) m)
            then some x
            else (if leb k (suc n) then some y else none))
          ≡ (if leb k (suc (suc n)) then some x else none))
grown k n m x y cap = (omega arith, ground arith)

failed_at-after :
    (policy : RetryPolicy) (t : ℕ) (ts : List ℕ)
    → policy.circuit_failure_threshold ≤ u32_max
    → failed_at policy t (after policy ts) ≡ after policy (t ∷ ts)
failed_at-after policy t [] cap = refl
failed_at-after policy t (u ∷ ts) cap =
    let (count, instant) =
      grown policy.circuit_failure_threshold (length ts) u32_max (t + policy.circuit_cooldown_ms)
        (u + policy.circuit_cooldown_ms) cap in
    cc (count, instant)

failures-after :
    (key : Text) (ts : List ℕ) (b : RoutingCircuitBreaker)
    → or_insert (b.states key) ≡ fresh
    → b.policy.circuit_failure_threshold ≤ u32_max
    → or_insert ((failures key ts b).states key) ≡ after b.policy ts
unfolding record_failure
failures-after key [] b e cap = e
failures-after key (t ∷ ts) b e cap =
    ap or_insert (write_same key _ (failures key ts b).states)
    ∙ rw (failures-policy key ts b, failures-after key ts b e cap)
        (failed_at-after b.policy t ts cap)

-- The last failure leaves a state in the map.
last-after :
    (key : Text) (t : ℕ) (ts : List ℕ) (b : RoutingCircuitBreaker)
    → or_insert (b.states key) ≡ fresh
    → b.policy.circuit_failure_threshold ≤ u32_max
    → (failures key (t ∷ ts) b).states key ≡ some (after b.policy (t ∷ ts))
unfolding record_failure
last-after key t ts b e cap =
    write_same key _ (failures key ts b).states
    ∙ ap some (
        rw (failures-policy key ts b, failures-after key ts b e cap)
          (failed_at-after b.policy t ts cap))

shut :
    (key : Text) (now : ℕ) (b : RoutingCircuitBreaker)
    → or_insert (b.states key) ≡ fresh
    → (is_open now key b).1 ≡ false
unfolding is_open
shut key now b e = elim (Option-cases (b.states key)) [
  | inl f ↦ rw (f, is_open) refl
  | inr (s, f) ↦ rw (f, is_open) (still s (ap or_insert (sym f) ∙ e))
]
  where
    still :
        (s : RoutingCircuitState)
        → s ≡ fresh
        → (elim s.open_until as (λ _. RoutingCircuitBreaker × Bool) [
          | none ↦ (b, false)
          | some until ↦
              if ltb now until
              then (b, true)
              else (record b { states = write key (some fresh) b.states }, false)
        ]).1
          ≡ false
    still s g = rw g refl

-- The last of a list of instants is within the cooldown, and the list reaches the threshold.
abbrev pub skips : RetryPolicy → ℕ → List ℕ → Bool
skips policy now [] = false
skips policy now (t ∷ ts) =
    leb policy.circuit_failure_threshold (length (t ∷ ts))
    && ltb now (t + policy.circuit_cooldown_ms)

opened :
    (reached : Bool) (now until : ℕ) (b c : RoutingCircuitBreaker)
    → (elim (if reached then some until else none) as (λ _. RoutingCircuitBreaker × Bool) [
      | none ↦ (b, false)
      | some u ↦ if ltb now u then (b, true) else (c, false)
    ]).1
      ≡ (reached && ltb now until)
opened true now until b c = ground arith
opened false now until b c = refl

-- A candidate without failures on record is skipped after a row of failures just when they are as
-- many as the threshold of the policy and the cooldown after the last one is not over.
pub is_open-failures :
    (key : Text) (ts : List ℕ) (b : RoutingCircuitBreaker) (now : ℕ)
    → or_insert (b.states key) ≡ fresh
    → b.policy.circuit_failure_threshold ≤ u32_max
    → (is_open now key (failures key ts b)).1 ≡ skips b.policy now ts
unfolding is_open
is_open-failures key [] b now e cap = shut key now b e
is_open-failures key (t ∷ ts) b now e cap =
    rw (last-after key t ts b e cap, is_open)
      (opened (leb b.policy.circuit_failure_threshold (length (t ∷ ts))) now
        (t + b.policy.circuit_cooldown_ms) _ _)

-- A success wipes the record of a candidate: whatever was known of it, from then on only the
-- failures after the success decide whether it is skipped.
pub is_open-record_success :
    (key : Text) (ts : List ℕ) (b : RoutingCircuitBreaker) (now : ℕ)
    → b.policy.circuit_failure_threshold ≤ u32_max
    → (is_open now key (failures key ts (record_success key b))).1 ≡ skips b.policy now ts
unfolding record_success
is_open-record_success key ts b now cap =
    is_open-failures key ts (record_success key b) now (ap or_insert (write_same key none b.states))
      cap

not_before : (a b : ℕ) → b ≤ a → ltb a b ≡ false
not_before a b h = ground arith

-- The check after the cooldown.
expired :
    (key : Text) (b : RoutingCircuitBreaker) (s : RoutingCircuitState) (until checked : ℕ)
    → b.states key ≡ some s
    → s.open_until ≡ some until
    → until ≤ checked
    → (is_open checked key b) ≡ (record b { states = write key (some fresh) b.states }, false)
unfolding is_open
expired key b s until checked e f over =
    rw (e, f, is_open) (rw (not_before checked until over) refl)

-- A check of a skipped candidate after its cooldown lets it through and wipes its record: from then
-- on only the failures after the check decide whether it is skipped.
pub is_open-is_open :
    (key : Text) (ts : List ℕ) (b : RoutingCircuitBreaker) (s : RoutingCircuitState)
    (until checked now : ℕ)
    → b.states key ≡ some s
    → s.open_until ≡ some until
    → until ≤ checked
    → b.policy.circuit_failure_threshold ≤ u32_max
    → ((is_open checked key b).1 ≡ false)
      × ((is_open now key (failures key ts (is_open checked key b).0)).1 ≡ skips b.policy now ts)
is_open-is_open key ts b s until checked now e f over cap =
    let wiped = expired key b s until checked e f over in
    rw wiped (
      refl,
      is_open-failures key ts (record b { states = write key (some fresh) b.states }) now
          (ap or_insert (write_same key (some fresh) b.states)) cap,
    )
