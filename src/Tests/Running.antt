-- ===== src/Tests/Running.antt =====
-- A name that stands for the definitions with which a test on the client's state computes.
use linguamesh_linux.Tests.Sample.{Provider-discrete}
use linguamesh_linux.Prelude.Text.{Text-discrete, text_cmp, is_blank}
use linguamesh_linux.Model.Saved.{
  restore_saved_profiles, update_saved_profile_health, profile_storage_unavailable,
  select_saved_profile, begin_profile_deletion, confirm_profile_deletion, profile_deletion_failed,
  provider_failed,
}
use linguamesh_linux.Model.Connection.{
  begin_provider_connection_with_persistence, provider_connected_with_saved_profile,
  provider_connection_failed, begin_model_selection, confirm_model_selection,
  confirm_model_selection_with_saved_profile, model_selection_failed, select_model,
  confirm_with_profiles, confirm_counterpart, confirm_active, saved_counterpart,
}
use linguamesh_linux.Model.Translation.{
  begin_translation, begin_document_translation, set_document_output, complete_document_translation,
  cancel_document_translation, pause_document_translation, fail_document_translation,
  request_cancellation, apply_translation_event, record_client_error, record_stream_error,
  record_operation_failure, clear_workspace, record_routing_decision, build_request, apply_body,
}
use linguamesh_linux.Model.Settings.{
  mark_worker_ready, mark_worker_unavailable, set_source_text, set_source_locale, set_target_locale,
  set_glossary, set_privacy_mode, set_quality_mode, set_translation_preset, set_theme, set_locale,
  restore_translation_history_count, restore_translation_history_enabled,
  restore_translation_memory_count, restore_translation_memory_enabled,
  clear_translation_history_count, clear_translation_memory_count,
}
use linguamesh_linux.Model.Profiles.{
  has_duplicate, sort_saved_profiles, insert_sorted, profile_cmp, saved_profile_by_id,
  replace_or_push, upsert_saved_profile, profiles_match_except_secret, Bool-discrete,
  Model-discrete,
}
use linguamesh_linux.Model.State.{initial, onboarding_stage, selected_saved_profile}
use linguamesh_linux.Model.Call.{step, run}
use linguamesh_linux.Model.Stream.{accepts, receive, texts}

unfoldable pub running : Unit {0}
unfolding Provider-discrete Text-discrete text_cmp is_blank restore_saved_profiles
    update_saved_profile_health profile_storage_unavailable select_saved_profile
    begin_profile_deletion confirm_profile_deletion profile_deletion_failed provider_failed
    begin_provider_connection_with_persistence provider_connected_with_saved_profile
    provider_connection_failed begin_model_selection confirm_model_selection
    confirm_model_selection_with_saved_profile model_selection_failed select_model
    confirm_with_profiles confirm_counterpart confirm_active saved_counterpart begin_translation
    begin_document_translation set_document_output complete_document_translation
    cancel_document_translation pause_document_translation fail_document_translation
    request_cancellation apply_translation_event record_client_error record_stream_error
    record_operation_failure clear_workspace record_routing_decision build_request apply_body
    mark_worker_ready mark_worker_unavailable set_source_text set_source_locale set_target_locale
    set_glossary set_privacy_mode set_quality_mode set_translation_preset set_theme set_locale
    restore_translation_history_count restore_translation_history_enabled
    restore_translation_memory_count restore_translation_memory_enabled
    clear_translation_history_count clear_translation_memory_count has_duplicate sort_saved_profiles
    insert_sorted profile_cmp saved_profile_by_id replace_or_push upsert_saved_profile
    profiles_match_except_secret Bool-discrete Model-discrete initial onboarding_stage
    selected_saved_profile step run accepts receive texts
running = tt
