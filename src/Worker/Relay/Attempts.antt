-- ===== src/Worker/Relay/Attempts.antt =====
-- src/worker.rs, `run_worker`, the branch `ActiveStep::Event`: the loop over the candidates that may
-- take over from the one that failed.
use linguamesh_linux.Prelude.{
  ℕ, Option, none, some, List, [], ◌∷◌, Bool, not, if◌then◌else◌, ◌++◌, ltb, ◌==◌, ◌+◌, ◌/◌, ◌%◌,
  true, ◌||◌, is_some,
}
use linguamesh_linux.Prelude.Text.{Text, codes}
use linguamesh_linux.Domain.{Domain, EventBody}
use linguamesh_linux.Worker.Storage.{Core, Outcome, done, failed}
use linguamesh_linux.Worker.Circuit.{RoutingCircuitBreaker, record_failure, is_open, record_success}
use linguamesh_linux.Worker.Host.{Host, RoutingCandidate}
use linguamesh_linux.Worker.Candidates.{
  ActiveTranslation, connect_routing_candidate, is_retryable_fallback,
}
use linguamesh_linux.Worker.Candidates.{begin_translation}
use linguamesh_linux.Worker.Backoff.{routing_backoff_delay}

-- The bytes of a text in UTF-8.
abbrev pub utf8_bytes : Text → List ℕ
utf8_bytes [] = []
utf8_bytes (c ∷ s) =
    (if ltb c 0x80
      then c ∷ []
      else if ltb c 0x800
      then (0xc0 + c / 64) ∷ (0x80 + c % 64) ∷ []
      else if ltb c 0x10000
      then (0xe0 + c / 4096) ∷ (0x80 + c / 64 % 64) ∷ (0x80 + c % 64) ∷ []
      else (0xf0 + c / 262144)
        ∷ (0x80 + c / 4096 % 64)
        ∷ (0x80 + c / 64 % 64)
        ∷ (0x80 + c % 64)
        ∷ [])
    ++ utf8_bytes s

-- `format!("{}@{}", a, b)`.
abbrev pub joined_at : Text → Text → Text
joined_at a b = a ++ codes "@" ++ b

-- The error of a `TranslationEvent::Failed`.
abbrev pub failure_of : {U F : Type 0} → EventBody U F → Option F
failure_of (EventBody.failed error) = some error
failure_of _ = none

-- What the loop over the candidates works on, and how it ends: stopped by a shutdown, or with the
-- manager, the candidate and the translation that take over.
pub record Attempts (d : Domain) (c : Core d) (h : Host d c) : Type 0 where
  pub world : h.World
  pub circuit : RoutingCircuitBreaker
  pub retry_error : d.TranslationError
  pub next_index : ℕ
  pub has_connected : Bool
  pub stops : Bool
  pub switched : Option (c.Manager × RoutingCandidate × ActiveTranslation d c h)

module _ {d : Domain} {c : Core d} (h : Host d c) where
  unfoldable pub wait_for_routing_backoff : h.World → ℕ → h.World × Bool
  wait_for_routing_backoff w delay =
      if delay == 0 then ((h.is_shutdown w).0, not (h.is_shutdown w).1) else h.sleep w delay

  -- `routing_circuit.record_failure(..)` at the present time.
  abbrev pub failure_now : Text → h.World → RoutingCircuitBreaker → h.World × RoutingCircuitBreaker
  failure_now key w b = ((h.now w).0, record_failure (h.now w).1 key b)

  module _ (storage : Option c.Storage) (request : d.Request) where
    -- A candidate that is connected: the translation goes on with it, if it starts.
    abbrev pub take_over :
        RoutingCandidate → c.Manager × d.Profile × Text → Attempts d c h → Attempts d c h
    take_over x (manager, _, model) t =
        let asked = h.with_provider_identity request (joined_at x.provider_id x.model_id) in
        elim (begin_translation h manager (some model) asked) [
          | failed e ↦ t
          | done next ↦ record t { switched = some (manager, x, next) }
        ]

    abbrev pub connection_result :
        RoutingCandidate
        → Outcome d (c.Manager × d.Profile × Text)
        → Attempts d c h
        → Attempts d c h
    connection_result x (done connection) t =
        take_over x connection record t { circuit = record_success (h.candidate_key x) t.circuit }
    connection_result x (failed e) t =
        if is_retryable_fallback h e
        then (let marked = failure_now (h.candidate_key x) t.world t.circuit in
            record t { world = marked.0; circuit = marked.1; retry_error = e })
        else record t { retry_error = e }

    -- The wait and the connection of a candidate that is not skipped.
    abbrev pub connect_after_wait : RoutingCandidate → ℕ → Attempts d c h → Attempts d c h
    connect_after_wait x index t =
        let delay =
          routing_backoff_delay (h.retry_after_ms t.retry_error) index
            (utf8_bytes (h.candidate_key x)) t.circuit.policy in
        let waited = wait_for_routing_backoff t.world delay in
        if not waited.1
        then record t { world = waited.0; stops = true }
        else (let connection = connect_routing_candidate h waited.0 storage x in
            connection_result x connection.1
              record t { world = connection.0; has_connected = true })

    -- One round of the loop.
    unfoldable pub attempt_candidate : RoutingCandidate → Attempts d c h → Attempts d c h
    attempt_candidate x t =
        let time = h.now t.world in
        let checked = is_open time.1 (h.candidate_key x) t.circuit in
        let begun = record t {
          world = time.0;
          circuit = checked.0;
          next_index = t.next_index + 1;
        } in
        if checked.1 then begun else connect_after_wait x t.next_index begun

    unfoldable pub attempt_candidates : List RoutingCandidate → Attempts d c h → Attempts d c h
    unfolding attempt_candidate
    attempt_candidates [] t = t
    attempt_candidates (x ∷ xs) t =
        let tried = attempt_candidate x t in
        let others = attempt_candidates xs tried in
        if tried.stops || is_some tried.switched then tried else others
