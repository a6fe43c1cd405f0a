-- ===== src/Worker/Relay/Switch.antt =====
-- src/worker.rs, `run_worker`, the branch `ActiveStep::Event`: the change to another provider, where
-- the running one fails with an error of the network.
use linguamesh_linux.Prelude.{
  ℕ, Option, none, some, [], Bool, not, if◌then◌else◌, true, ◌||◌, false, ◌-◌,
}
use linguamesh_linux.Prelude.Text.{Text, codes}
use linguamesh_linux.Domain.{Domain}
use linguamesh_linux.Worker.Storage.{Core, done, failed}
use linguamesh_linux.Worker.Circuit.{RoutingCircuitBreaker}
use linguamesh_linux.Worker.Host.{Host}
use linguamesh_linux.Worker.Candidates.{ActiveTranslation, is_retryable_fallback}
use linguamesh_linux.Worker.Candidates.{begin_translation}
use linguamesh_linux.Worker.Relay.{
  WorkerState, send, pass_on, routing_fallback_selected, fallback_selected, ActiveCancellation,
}
use linguamesh_linux.Localization.{drop}
use linguamesh_linux.Worker.Relay.Attempts.{
  failure_now, Attempts, failure_of, joined_at, attempt_candidates,
}

module _ {d : Domain} {c : Core d} (h : Host d c) where
  -- The translation goes on with another operation, and the number of its next event.
  abbrev pub switched_to :
      ActiveTranslation d c h → ActiveTranslation d c h → ℕ → ActiveTranslation d c h
  switched_to a next sequence = record a {
    operation = next.operation;
    request = next.request;
    fallback_attempted = true;
    suppress_fallback_started = true;
    next_sequence = sequence;
  }

  abbrev pub or_unknown : Option Text → Text
  or_unknown none = codes "unknown"
  or_unknown (some t) = t

  -- The failure of the candidate that was running.
  abbrev pub mark_running :
      ActiveTranslation d c h → WorkerState d c h → h.World × RoutingCircuitBreaker
  mark_running a s = elim a.routing_provider_id [
    | none ↦ (s.world, s.routing_circuit)
    | some provider_id ↦
        failure_now h (joined_at provider_id (h.request_model_id a.request)) s.world
          s.routing_circuit
  ]

  abbrev pub all_attempts :
      ActiveTranslation d c h → d.TranslationError → WorkerState d c h → Attempts d c h
  all_attempts a error s =
      let marked = mark_running a s in
      attempt_candidates h s.storage a.request (drop a.routing_fallback_index a.routing_candidates)
        record {
          world = marked.0;
          circuit = marked.1;
          retry_error = error;
          next_index = a.routing_fallback_index;
          has_connected = false;
          stops = false;
          switched = none;
        }

  -- The variables after the attempts.
  abbrev pub after_attempts : Attempts d c h → WorkerState d c h → WorkerState d c h
  after_attempts t s = record s {
    world = t.world;
    routing_circuit = t.circuit;
    stop_after_active = t.stops || s.stop_after_active;
    active_cancellation = if t.has_connected then none else s.active_cancellation;
  }

  abbrev pub routing_result :
      ActiveTranslation d c h
      → Text
      → d.Event
      → Attempts d c h
      → WorkerState d c h
      → Bool × (ActiveTranslation d c h × WorkerState d c h)
  routing_result a routing_id e t s = elim t.switched [
    | none ↦ (
      false,
      (
        record a {
          routing_profile_id = none;
          routing_candidates = [];
          routing_fallback_index = t.next_index;
        },
        after_attempts t s,
      ),
    )
    | some (manager, x, next) ↦
        let b = record (switched_to a next (d.sequence e)) {
          routing_provider_id = some x.provider_id;
          routing_fallback_index = t.next_index;
        } in
        (
          true,
          (
            b,
            send
                (routing_fallback_selected routing_id (or_unknown a.routing_provider_id)
                  x.provider_id (t.next_index - 1))
                record (after_attempts t s) {
                  routing_manager = some manager;
                  active_cancellation = some (ActiveCancellation.translation next.operation);
                },
          ),
        )
  ]

  -- The part for a translation by a routing profile: whether another candidate took over, and the
  -- translation and the variables after it.
  unfoldable pub routing_fallback :
      ActiveTranslation d c h
      → d.Event
      → WorkerState d c h
      → Bool × (ActiveTranslation d c h × WorkerState d c h)
  routing_fallback a e s = elim (failure_of (d.body e)) [
    | none ↦ (false, (a, s))
    | some error ↦ elim a.routing_profile_id [
      | none ↦ (false, (a, s))
      | some routing_id ↦
          if is_retryable_fallback h error
          then routing_result a routing_id e (all_attempts a error s) s
          else (false, (a, s))
    ]
  ]

  abbrev pub fallback_request : ActiveTranslation d c h → d.ProfileId → d.Profile → d.Request
  fallback_request a fallback_id p =
      h.with_provider_identity a.request (joined_at (d.as_str fallback_id) (d.base_endpoint p))

  -- The translation by the approved fallback profile, if its manager is there and starts it.
  abbrev pub fallback_translation :
      ActiveTranslation d c h → d.ProfileId → WorkerState d c h → Option (ActiveTranslation d c h)
  fallback_translation a fallback_id s = elim s.fallback_profile [
    | none ↦ none
    | some p ↦ elim s.fallback_manager [
      | none ↦ none
      | some manager ↦
          elim (begin_translation h manager a.fallback_model (fallback_request a fallback_id p)) [
            | failed e ↦ none
            | done next ↦ some next
          ]
    ]
  ]

  abbrev pub told_fallback : d.ProfileId → WorkerState d c h → WorkerState d c h
  told_fallback fallback_id s = elim s.active_profile [
    | none ↦ s
    | some p ↦ send (fallback_selected (d.id p) fallback_id) s
  ]

  -- The part for a translation with an approved fallback profile.
  unfoldable pub profile_fallback :
      ActiveTranslation d c h
      → d.Event
      → WorkerState d c h
      → Bool × (ActiveTranslation d c h × WorkerState d c h)
  profile_fallback a e s = elim (failure_of (d.body e)) [
    | none ↦ (false, (a, s))
    | some error ↦ elim a.fallback_profile_id [
      | none ↦ (false, (a, s))
      | some fallback_id ↦
          if a.fallback_attempted || not (is_retryable_fallback h error)
          then (false, (a, s))
          else elim (fallback_translation a fallback_id s) [
            | some next ↦ (
              true,
              (
                switched_to a next (d.sequence e),
                told_fallback fallback_id record s {
                  active_cancellation = some (ActiveCancellation.translation next.operation);
                },
              ),
            )
            | none ↦ (
              false,
              (
                record a { fallback_attempted = true; fallback_profile_id = none },
                record s { fallback_manager = none; fallback_profile = none },
              ),
            )
          ]
    ]
  ]

  -- The whole branch `ActiveStep::Event(Some(event))`, on the translation that is running.
  unfoldable pub handle_running :
      ActiveTranslation d c h → d.Event → WorkerState d c h → WorkerState d c h
  unfolding routing_fallback profile_fallback
  handle_running a e s =
      let routed = routing_fallback a e s in
      if routed.0
      then record routed.1.1 { active = some routed.1.0 }
      else (let fallen = profile_fallback routed.1.0 e routed.1.1 in
          if fallen.0
          then record fallen.1.1 { active = some fallen.1.0 }
          else pass_on fallen.1.0 e fallen.1.1)

  unfoldable pub handle_event : d.Event → WorkerState d c h → WorkerState d c h
  unfolding handle_running
  handle_event e s = elim s.active [ none ↦ s | some a ↦ handle_running a e s ]
