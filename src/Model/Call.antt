-- ===== src/Model/Call.antt =====
-- The methods of `AppState` as messages, and the histories of a client: any method may be called
-- in any state.
use mathlib.Core.List.{List, [], ◌∷◌}
use linguamesh_linux.Prelude.{ℕ, Bool, Option}
use linguamesh_linux.Prelude.Text.{Text}
use linguamesh_linux.Domain.{Domain}
use linguamesh_linux.Model.Locale.{UiLocale}
use linguamesh_linux.Model.Status.{ThemePreference, Result, ok, err}
use linguamesh_linux.Model.State.{AppState, RoutingDecisionSummary}
use linguamesh_linux.Model.Saved
use linguamesh_linux.Model.Connection
use linguamesh_linux.Model.Translation
use linguamesh_linux.Model.Settings

pub data Call (d : Domain) : Type 0 where
  restore_saved_profiles : List d.Profile → Option d.ProfileId → Call d
  update_saved_profile_health : d.Profile → Call d
  profile_storage_unavailable : d.TranslationError → Call d
  select_saved_profile : Option d.ProfileId → Call d
  begin_profile_deletion : d.ProfileId → Call d
  confirm_profile_deletion : d.ProfileId → Call d
  profile_deletion_failed : d.ProfileId → d.TranslationError → Call d
  begin_provider_connection_with_persistence : d.Profile → Bool → Call d
  provider_connected_with_saved_profile : d.Profile → List d.Model → Option d.Profile → Call d
  provider_connection_failed : d.Profile → d.TranslationError → Call d
  provider_failed : d.TranslationError → Call d
  begin_model_selection : Text → Call d
  confirm_model_selection : Text → Call d
  confirm_model_selection_with_saved_profile : d.ProfileId → Text → Option d.Profile → Call d
  model_selection_failed : Text → d.TranslationError → Call d
  select_model : Text → Call d
  begin_translation : Call d
  begin_document_translation : Call d
  set_document_output : Text → Call d
  complete_document_translation : Text → Call d
  cancel_document_translation : Text → Call d
  pause_document_translation : Text → Call d
  fail_document_translation : Text → d.TranslationError → Call d
  request_cancellation : Call d
  apply_translation_event : d.Event → Call d
  record_client_error : Text → Call d
  record_stream_error : Text → Call d
  record_operation_failure : d.TranslationError → Call d
  clear_workspace : Call d
  record_routing_decision : RoutingDecisionSummary → Call d
  mark_worker_ready : Call d
  mark_worker_unavailable : Call d
  set_source_text : Text → Call d
  set_source_locale : Option Text → Call d
  set_target_locale : Text → Call d
  set_glossary : Option d.Glossary → Call d
  set_privacy_mode : d.Privacy → Call d
  set_quality_mode : d.Quality → Call d
  set_translation_preset : d.Preset → Call d
  set_theme : ThemePreference → Call d
  set_locale : UiLocale → Call d
  restore_translation_history_count : ℕ → Call d
  restore_translation_history_enabled : Bool → Call d
  restore_translation_memory_count : ℕ → Call d
  restore_translation_memory_enabled : Bool → Call d
  clear_translation_history_count : Call d
  clear_translation_memory_count : Call d

-- What a method without a result returns.
abbrev pub done : {d : Domain} → AppState d → AppState d × Result (Unit {0})
done s = (s, ok tt)

-- The outcome without the request.
abbrev pub forget : {d : Domain} → AppState d × Result d.Request → AppState d × Result (Unit {0})
forget (s, ok r) = (s, ok tt)
forget (s, err e) = (s, err e)

unfoldable pub step : {d : Domain} → Call d → AppState d → AppState d × Result (Unit {0})
step (Call.restore_saved_profiles x y) s = Saved.restore_saved_profiles x y s
step (Call.update_saved_profile_health x) s = Saved.update_saved_profile_health x s
step (Call.profile_storage_unavailable x) s = done (Saved.profile_storage_unavailable x s)
step (Call.select_saved_profile x) s = Saved.select_saved_profile x s
step (Call.begin_profile_deletion x) s = Saved.begin_profile_deletion x s
step (Call.confirm_profile_deletion x) s = Saved.confirm_profile_deletion x s
step (Call.profile_deletion_failed x y) s = Saved.profile_deletion_failed x y s
step (Call.begin_provider_connection_with_persistence x y) s =
    Connection.begin_provider_connection_with_persistence x y s
step (Call.provider_connected_with_saved_profile x y z) s =
    Connection.provider_connected_with_saved_profile x y z s
step (Call.provider_connection_failed x y) s = Connection.provider_connection_failed x y s
step (Call.provider_failed x) s = done (Saved.provider_failed x s)
step (Call.begin_model_selection x) s = Connection.begin_model_selection x s
step (Call.confirm_model_selection x) s = Connection.confirm_model_selection x s
step (Call.confirm_model_selection_with_saved_profile x y z) s =
    Connection.confirm_model_selection_with_saved_profile x y z s
step (Call.model_selection_failed x y) s = Connection.model_selection_failed x y s
step (Call.select_model x) s = Connection.select_model x s
step Call.begin_translation s = forget (Translation.begin_translation s)
step Call.begin_document_translation s = Translation.begin_document_translation s
step (Call.set_document_output x) s = done (Translation.set_document_output x s)
step (Call.complete_document_translation x) s = done (Translation.complete_document_translation x s)
step (Call.cancel_document_translation x) s = done (Translation.cancel_document_translation x s)
step (Call.pause_document_translation x) s = done (Translation.pause_document_translation x s)
step (Call.fail_document_translation x y) s = done (Translation.fail_document_translation x y s)
step Call.request_cancellation s = Translation.request_cancellation s
step (Call.apply_translation_event x) s = Translation.apply_translation_event x s
step (Call.record_client_error x) s = done (Translation.record_client_error x s)
step (Call.record_stream_error x) s = done (Translation.record_stream_error x s)
step (Call.record_operation_failure x) s = done (Translation.record_operation_failure x s)
step Call.clear_workspace s = done (Translation.clear_workspace s)
step (Call.record_routing_decision x) s = done (Translation.record_routing_decision x s)
step Call.mark_worker_ready s = done (Settings.mark_worker_ready s)
step Call.mark_worker_unavailable s = done (Settings.mark_worker_unavailable s)
step (Call.set_source_text x) s = done (Settings.set_source_text x s)
step (Call.set_source_locale x) s = done (Settings.set_source_locale x s)
step (Call.set_target_locale x) s = done (Settings.set_target_locale x s)
step (Call.set_glossary x) s = done (Settings.set_glossary x s)
step (Call.set_privacy_mode x) s = done (Settings.set_privacy_mode x s)
step (Call.set_quality_mode x) s = done (Settings.set_quality_mode x s)
step (Call.set_translation_preset x) s = done (Settings.set_translation_preset x s)
step (Call.set_theme x) s = done (Settings.set_theme x s)
step (Call.set_locale x) s = done (Settings.set_locale x s)
step (Call.restore_translation_history_count x) s =
    done (Settings.restore_translation_history_count x s)
step (Call.restore_translation_history_enabled x) s =
    done (Settings.restore_translation_history_enabled x s)
step (Call.restore_translation_memory_count x) s =
    done (Settings.restore_translation_memory_count x s)
step (Call.restore_translation_memory_enabled x) s =
    done (Settings.restore_translation_memory_enabled x s)
step Call.clear_translation_history_count s = done (Settings.clear_translation_history_count s)
step Call.clear_translation_memory_count s = done (Settings.clear_translation_memory_count s)

-- The state after a history of calls, whatever each returned.
unfoldable pub run : {d : Domain} → List (Call d) → AppState d → AppState d
run [] s = s
run (c ∷ cs) s = run cs (step c s).0

-- A property of a state that an outcome has, it keeps without its result.
pub forget_cases {ℓ} :
    {d : Domain} (P : AppState d → Type ℓ) (s : AppState d) (r : AppState d × Result d.Request)
    → P r.0
    → P (forget r).0
forget_cases P s (t, ok _) h = h
forget_cases P s (t, err _) h = h
