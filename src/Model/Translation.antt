-- ===== src/Model/Translation.antt =====
-- src/model.rs, the methods of `AppState` on a translation: the request, the event stream, the
-- document jobs, cancellation and the recorded failures.
pub mod Cases
pub mod Request
use linguamesh_linux.Prelude.{
  Bool, true, false, not, ◌&&◌, [], ◌++◌, Option, none, some, is_some, is_some_and, is_empty, leb,
  if◌then◌else◌,
}
use linguamesh_linux.Prelude.Text.{Text, is_blank}
use linguamesh_linux.Domain.{Domain, EventBody, internal}
use linguamesh_linux.Model.State.{AppState, RoutingDecisionSummary, reject, accept}
use linguamesh_linux.Model.Status.{
  AppStatus, Result, ok, is_connecting, is_busy, is_terminal, is_translating, is_cancelling,
  connecting, busy, model_selection_pending, profile_deletion_pending, missing_provider,
  missing_source, missing_model, event_after_terminal, unexpected_first_event,
  unexpected_started_event, non_increasing_sequence,
}

-- `matches!(&event, TranslationEvent::Started { .. })`.
abbrev pub is_started : {U F : Type 0} → EventBody U F → Bool
is_started EventBody.started = true
is_started _ = false

-- `request.with_glossary(..)` where there is a glossary.
abbrev pub given_glossary : (d : Domain) → Option d.Glossary → d.Request → d.Request
given_glossary d none r = r
given_glossary d (some g) r = d.with_glossary r g

module _ {d : Domain} where
  unfoldable pub build_request : Text → AppState d → d.Request
  build_request m s =
      let r =
        d.with_source_locale (d.request_new s.source_text s.target_locale m) s.source_locale in
      let r = given_glossary d s.glossary r in
      let r = d.with_privacy_mode r s.privacy_mode in
      let r = d.with_quality_mode r s.quality_mode in d.with_preset r s.translation_preset

  -- The state at the start of a stream.
  abbrev pub streaming : AppState d → AppState d
  streaming s = record s {
    output = [];
    partial_output = false;
    usage = none;
    status = AppStatus.translating;
    error = none;
    last_sequence = none;
  }

  unfoldable pub begin_translation : AppState d → AppState d × Result d.Request
  unfolding build_request
  begin_translation s =
      if is_connecting s.status
      then reject s connecting
      else if is_busy s.status
      then reject s busy
      else if is_some s.pending_model_selection
      then reject s model_selection_pending
      else if is_some s.pending_profile_deletion
      then reject s profile_deletion_pending
      else if not (is_some s.active_provider)
      then reject s missing_provider
      else if is_blank s.source_text
      then reject s missing_source
      else elim s.selected_model [
        | none ↦ reject s missing_model
        | some m ↦ (streaming s, ok (build_request m s))
      ]

  unfoldable pub begin_document_translation : AppState d → AppState d × Result (Unit {0})
  begin_document_translation s =
      if is_connecting s.status
      then reject s connecting
      else if is_busy s.status
      then reject s busy
      else if is_some s.pending_model_selection
      then reject s model_selection_pending
      else if is_some s.pending_profile_deletion
      then reject s profile_deletion_pending
      else if not (is_some s.active_provider)
      then reject s missing_provider
      else if not (is_some s.selected_model)
      then reject s missing_model
      else accept (streaming s)

  unfoldable pub set_document_output : Text → AppState d → AppState d
  set_document_output t s = record s { output = t; partial_output = true }

  unfoldable pub complete_document_translation : Text → AppState d → AppState d
  complete_document_translation t s = record s {
    output = t;
    partial_output = false;
    status = AppStatus.completed;
    error = none;
  }

  unfoldable pub cancel_document_translation : Text → AppState d → AppState d
  cancel_document_translation t s = record s {
    output = t;
    partial_output = not (is_empty t);
    status = AppStatus.cancelled;
  }

  unfoldable pub pause_document_translation : Text → AppState d → AppState d
  pause_document_translation t s = record s {
    output = t;
    partial_output = not (is_empty t);
    status = AppStatus.ready;
    error = none;
  }

  unfoldable pub fail_document_translation : Text → d.TranslationError → AppState d → AppState d
  fail_document_translation t e s = record s {
    output = t;
    partial_output = not (is_empty t);
    status = AppStatus.failed;
    error = some e;
  }

  unfoldable pub request_cancellation : AppState d → AppState d × Result (Unit {0})
  request_cancellation s =
      if not (is_translating s.status)
      then reject s busy
      else accept (record s { status = AppStatus.cancelling })

  -- The match on the event, after its checks.
  unfoldable pub apply_body : EventBody d.Usage d.TranslationError → AppState d → AppState d
  apply_body EventBody.started s = record s {
    status = if is_cancelling s.status then s.status else AppStatus.translating;
  }
  apply_body (EventBody.text_delta t) s = record s { output = s.output ++ t; partial_output = true }
  apply_body (EventBody.completed u) s = record s {
    usage = u;
    status = AppStatus.completed;
    partial_output = false;
  }
  apply_body EventBody.cancelled s = record s {
    status = AppStatus.cancelled;
    partial_output = not (is_empty s.output);
  }
  apply_body (EventBody.failed e) s = record s {
    status = AppStatus.failed;
    partial_output = not (is_empty s.output);
    error = some e;
  }

  unfoldable pub apply_translation_event : d.Event → AppState d → AppState d × Result (Unit {0})
  unfolding apply_body
  apply_translation_event e s =
      if is_terminal s.status
      then reject s event_after_terminal
      else if not (is_some s.last_sequence) && not (is_started (d.body e))
      then reject s unexpected_first_event
      else if is_some s.last_sequence && is_started (d.body e)
      then reject s unexpected_started_event
      else if is_some_and s.last_sequence (λ last. leb (d.sequence e) last)
      then reject s non_increasing_sequence
      else accept (apply_body (d.body e) (record s { last_sequence = some (d.sequence e) }))

  unfoldable pub record_client_error : Text → AppState d → AppState d
  record_client_error message s = record s {
    status = AppStatus.failed;
    error = some (d.error_new internal message);
  }

  unfoldable pub record_stream_error : Text → AppState d → AppState d
  record_stream_error message s = record s {
    status = AppStatus.cancelling;
    partial_output = not (is_empty s.output);
    error = some (d.error_new internal message);
  }

  unfoldable pub record_operation_failure : d.TranslationError → AppState d → AppState d
  record_operation_failure e s = record s {
    status = AppStatus.failed;
    partial_output = not (is_empty s.output);
    error = some e;
  }

  unfoldable pub clear_workspace : AppState d → AppState d
  clear_workspace s = record s {
    source_text = [];
    output = [];
    partial_output = false;
    usage = none;
    error = none;
    last_sequence = none;
    routing_decision = none;
    status = if is_some s.active_provider then AppStatus.ready else AppStatus.disconnected;
  }

  unfoldable pub record_routing_decision : RoutingDecisionSummary → AppState d → AppState d
  record_routing_decision r s = record s { routing_decision = some r }
