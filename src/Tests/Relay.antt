-- ===== src/Tests/Relay.antt =====
use linguamesh_linux.Worker.Connect.Secrets.{connect_candidate-secrets, Justified, provided}
use linguamesh_linux.Worker.Connect.{
  SecretRequest, SessionSecrets, found, no_secrets, cancelled_first,
}
use linguamesh_linux.Worker.Connect.Finished.{finish_candidate_connection-done, Saved}
use linguamesh_linux.Worker.Connect.Finish.{
  finish_candidate_connection, profile_without_secret, ConnectedCandidate, refs,
}
use linguamesh_linux.Tests.Sample.{Provider, Ref, Ref-discrete}
use linguamesh_linux.Worker.Relay.Accepted.{handle_events-accepted}
use linguamesh_linux.Worker.Relay.Renumbered.{routing_switch-number}
use linguamesh_linux.Tests.Sample.{sample, SampleRequest, SampleEvent, Failure}
use linguamesh_linux.Tests.Host.{host, builder}
use linguamesh_linux.Tests.Worker.{core, closed}
use linguamesh_linux.Tests.Model.{alpha, two_models}
use linguamesh_linux.Prelude.Text.{Text-discrete, codes}
use linguamesh_linux.Prelude.{
  refl, [], true, ◌∷◌, some, false, none, ◌≡◌, ◌++◌, arith, All, ◌≤◌, filter_some,
}
use linguamesh_linux.Domain.{ErrorKind, ErrorKind-discrete}
use linguamesh_linux.Worker.Candidates.{begin_translation, connect_routing_candidate}
use linguamesh_linux.Worker.Connect.{connect_candidate, answer_requests, respond}
use linguamesh_linux.Model.Translation.{apply_translation_event}
use linguamesh_linux.Worker.Candidates.{ActiveTranslation, is_retryable_fallback}
use linguamesh_linux.Prelude.{ℕ, List, Option}
use linguamesh_linux.Worker.Relay.Accepted.{handle_events, AllContinue}
use linguamesh_linux.Domain.{EventBody}
use linguamesh_linux.Model.State.{AppState, initial}
use linguamesh_linux.Worker.Relay.Switch.{
  handle_event, handle_running, routing_fallback, profile_fallback,
}
use linguamesh_linux.Worker.Relay.Attempts.{
  attempt_candidates, attempt_candidate, wait_for_routing_backoff,
}
use linguamesh_linux.Worker.Relay.{
  pass_on, record_completion, record_history, record_memory, remap_translation_event, WorkerState,
}
use linguamesh_linux.Worker.Backoff.{routing_backoff_delay, routing_jitter}
use linguamesh_linux.Worker.Circuit.{is_open, record_failure, record_success}
use linguamesh_linux.Worker.Relay.Protocol.{translations}
use linguamesh_linux.Model.Stream.{Stream, accepts, receive, texts}
use linguamesh_linux.Model.Status.{is_ok, AppStatus}
use linguamesh_linux.Model.Connection.{is_discovered}

-- Witnesses of the theorems on the events that the worker passes on, and on the secrets of a
-- connection.

abbrev asked : SampleRequest
asked = record { texts = []; calls = 0 }

-- A translation with an approved fallback profile.
abbrev started_translation : ActiveTranslation sample core host
started_translation = record {
  operation = asked;
  request = asked;
  output = [];
  fallback_profile_id = some (codes "b");
  fallback_model = some (codes "m1");
  fallback_attempted = false;
  suppress_fallback_started = false;
  next_sequence = 0;
  routing_profile_id = none;
  routing_candidates = [];
  routing_fallback_index = 0;
  routing_provider_id = none;
}

abbrev worker_state : ActiveTranslation sample core host → WorkerState sample core host
worker_state a = record {
  world = 0;
  storage = some [];
  routing_circuit = closed;
  routing_manager = none;
  fallback_manager = some (codes "b");
  fallback_profile = some alpha;
  active_profile = some alpha;
  active = some a;
  active_cancellation = none;
  shutting_down = false;
  stop_after_active = false;
  is_closed = false;
  sent = [];
}

abbrev sent_as : ℕ → EventBody ℕ Failure → SampleEvent
sent_as n b = record { number = n; content = b }

abbrev lost : Failure
lost = record { kind = ErrorKind.network; message = [] }

-- The first operation fails after one text, the second completes.
abbrev two_streams : List SampleEvent
two_streams =
    sent_as 0 EventBody.started
    ∷ sent_as 1 (EventBody.text_delta (codes "a"))
    ∷ sent_as 2 (EventBody.failed lost)
    ∷ sent_as 0 EventBody.started
    ∷ sent_as 1 (EventBody.text_delta (codes "b"))
    ∷ sent_as 2 (EventBody.completed none)
    ∷ []

abbrev client : Option ℕ → AppState sample
client n = record (initial sample) { status = AppStatus.translating; last_sequence = n }

handle_events-accepted_example :
    let told =
      translations (handle_events host two_streams (worker_state started_translation)).sent in
    (Stream sample told)
    × (accepts told (client none) ≡ true)
    × ((receive told (client none)).output ≡ (client none).output ++ texts sample told)
unfolding handle_events AllContinue handle_event handle_running routing_fallback profile_fallback
    pass_on record_completion record_history record_memory remap_translation_event begin_translation
    is_retryable_fallback Text-discrete ErrorKind-discrete initial
handle_events-accepted_example =
    handle_events-accepted host started_translation two_streams (worker_state started_translation)
      (client none) (refl, refl, refl, refl, refl, refl)
      (
        (refl, omega arith, omega arith),
        (
          ((omega arith, refl), omega arith, omega arith),
          (
            ((omega arith, refl), omega arith, omega arith),
            (
              (refl, omega arith, omega arith),
              (
                ((omega arith, refl), omega arith, omega arith),
                (((omega arith, refl), omega arith, omega arith), tt),
              ),
            ),
          ),
        ),
      )
      refl refl

-- A translation by a routing profile, which has changed its provider once and has sent up to 5.
abbrev routed_translation : ActiveTranslation sample core host
routed_translation = record started_translation {
  fallback_attempted = true;
  next_sequence = 6;
  routing_profile_id = some (codes "r");
  routing_candidates = record { provider_id = codes "a"; model_id = codes "m1" } ∷ [];
}

-- The second operation fails at its own number 3, and the third's first text is refused: 5 is not
-- below 3.
routing_switch-number_example :
    let e = sent_as 3 (EventBody.failed lost) in
    let start = sent_as 0 EventBody.started in
    let text = sent_as 1 (EventBody.text_delta (codes "c")) in
    let s = record (worker_state routed_translation) { storage = some (alpha ∷ []) } in
    let told = remap_translation_event host text 3 in
    (translations
        (handle_events host (start ∷ text ∷ []) (handle_running host routed_translation e s)).sent
      ≡ translations s.sent ++ told ∷ [])
    × (told.number ≡ 3)
    × (is_ok (apply_translation_event told (client (some 5))).1 ≡ false)
unfolding handle_events handle_event handle_running routing_fallback attempt_candidates
    attempt_candidate wait_for_routing_backoff routing_backoff_delay routing_jitter is_open
    record_failure record_success connect_routing_candidate connect_candidate answer_requests
    respond begin_translation is_retryable_fallback Text-discrete ErrorKind-discrete initial
    remap_translation_event apply_translation_event
routing_switch-number_example =
    routing_switch-number host routed_translation (sent_as 3 (EventBody.failed lost))
      (sent_as 0 EventBody.started) (sent_as 1 (EventBody.text_delta (codes "c"))) (codes "c")
      record (worker_state routed_translation) { storage = some (alpha ∷ []) } (client (some 5)) 5
      refl refl refl refl refl refl

-- The proxy's secret of the session is asked for twice, the provider's stored one once.
abbrev asked_for : Ref → SecretRequest sample ℕ
asked_for r = record { required = r; resolution = found 9; is_active = true; is_cancelled = false }

abbrev three_requests : List (SecretRequest sample ℕ)
three_requests = asked_for Ref.session ∷ asked_for Ref.persistent ∷ asked_for Ref.session ∷ []

abbrev proxy_secret : SessionSecrets ℕ
proxy_secret = record no_secrets { proxy_authentication = some 7 }

connect_candidate-secrets_example :
    let responses =
      (connect_candidate sample core ℕ lost true alpha proxy_secret three_requests
        cancelled_first).0 in
    All (Justified sample core ℕ true alpha proxy_secret three_requests) responses
    × ((r : Ref) → sample.is_persistent r ≡ false → provided sample core ℕ r responses ≤ 1)
unfolding connect_candidate answer_requests respond Ref-discrete
connect_candidate-secrets_example =
    connect_candidate-secrets sample core ℕ lost true alpha cancelled_first three_requests
      proxy_secret

-- The proxy's secret of the session is not stored, and an unknown model is given up.
abbrev to_store : Provider
to_store = record alpha { model = some (codes "gone") }

abbrev connected_candidate : ConnectedCandidate sample
connected_candidate = record {
  runtime_profile = alpha;
  saved_profile = some record alpha { proxy = none };
  models = two_models;
  selected_model = none;
}

finish_candidate_connection-done_example :
    Saved builder true to_store
      (some [])
      (finish_candidate_connection builder lost false false to_store two_models true (some [])).0
      connected_candidate.saved_profile
    × (refs core connected_candidate.runtime_profile ≡ refs core to_store)
    × (connected_candidate.selected_model
        ≡ filter_some (λ m. is_discovered sample two_models m) to_store.model)
unfolding finish_candidate_connection profile_without_secret Text-discrete
finish_candidate_connection-done_example =
    finish_candidate_connection-done builder lost false false to_store two_models true (some [])
      connected_candidate refl
