-- ===== src/Model/Invariant/PendingStep.antt =====
-- Every method keeps the facts on a pending connection.
use linguamesh_linux.Prelude.{arith, Option}
use linguamesh_linux.Domain.{Domain, EventBody}
use linguamesh_linux.Model.Call.{Call, step, forget_cases}
use linguamesh_linux.Model.Saved.{profile_storage_unavailable, provider_failed}
use linguamesh_linux.Model.Saved.Cases.{
  restore_saved_profiles_cases, update_saved_profile_health_cases, select_saved_profile_cases,
  begin_profile_deletion_cases, confirm_profile_deletion_cases, profile_deletion_failed_cases,
}
use linguamesh_linux.Model.Connection.{confirm_model_selection_with_saved_profile}
use linguamesh_linux.Model.Connection.Cases.{
  begin_provider_connection_with_persistence_cases, provider_connected_with_saved_profile_cases,
  provider_connection_failed_cases, begin_model_selection_cases, confirm_model_selection_cases,
  confirm_model_selection_with_saved_profile_cases, model_selection_failed_cases,
  select_model_cases,
}
use linguamesh_linux.Model.Translation.{
  begin_translation, set_document_output, complete_document_translation,
  cancel_document_translation, pause_document_translation, fail_document_translation,
  record_client_error, record_stream_error, record_operation_failure, clear_workspace,
  record_routing_decision, apply_body,
}
use linguamesh_linux.Model.Translation.Cases.{
  begin_translation_cases, begin_document_translation_cases, request_cancellation_cases,
  apply_translation_event_cases,
}
use linguamesh_linux.Model.Settings.{
  mark_worker_ready, mark_worker_unavailable, set_source_text, set_source_locale, set_target_locale,
  set_glossary, set_privacy_mode, set_quality_mode, set_translation_preset, set_theme, set_locale,
  restore_translation_history_count, restore_translation_history_enabled,
  restore_translation_memory_count, restore_translation_memory_enabled,
  clear_translation_history_count, clear_translation_memory_count,
}
use linguamesh_linux.Prelude.Text.{Text}
use linguamesh_linux.Model.State.{AppState}
use linguamesh_linux.Model.Invariant.{PendingOf}

body-Pending :
    {d : Domain} (b : EventBody d.Usage d.TranslationError) (s : AppState d)
    → PendingOf s
    → PendingOf (apply_body b s)
unfolding apply_body
body-Pending EventBody.started s h = ground arith
body-Pending (EventBody.text_delta _) s h = h
body-Pending (EventBody.completed _) s h = ground arith
body-Pending EventBody.cancelled s h = ground arith
body-Pending (EventBody.failed _) s h = ground arith

with_saved :
    {d : Domain} (x : d.ProfileId) (y : Text) (z : Option d.Profile) (s : AppState d)
    → PendingOf s
    → PendingOf (confirm_model_selection_with_saved_profile x y z s).0
with_saved x y z s h =
    confirm_model_selection_with_saved_profile_cases PendingOf s h x y z (λ _ _ _ _ _ _ _ _ _. h)

pub step-Pending : {d : Domain} (c : Call d) (s : AppState d) → PendingOf s → PendingOf (step c s).0
unfolding step profile_storage_unavailable provider_failed set_document_output
    complete_document_translation cancel_document_translation pause_document_translation
    fail_document_translation record_client_error record_stream_error record_operation_failure
    clear_workspace record_routing_decision mark_worker_ready mark_worker_unavailable
    set_source_text set_source_locale set_target_locale set_glossary set_privacy_mode
    set_quality_mode set_translation_preset set_theme set_locale restore_translation_history_count
    restore_translation_history_enabled restore_translation_memory_count
    restore_translation_memory_enabled clear_translation_history_count
    clear_translation_memory_count
step-Pending (Call.restore_saved_profiles x y) s h =
    restore_saved_profiles_cases PendingOf s h x y (λ e0 e1 e2. ground arith)
step-Pending (Call.update_saved_profile_health x) s h =
    update_saved_profile_health_cases PendingOf s h x (λ _ _. h)
step-Pending (Call.profile_storage_unavailable x) s h = ground arith
step-Pending (Call.select_saved_profile x) s h =
    select_saved_profile_cases PendingOf s h x (λ _ _ _ _ _. h)
step-Pending (Call.begin_profile_deletion x) s h =
    begin_profile_deletion_cases PendingOf s h x (λ _ _ _ _ _ _. h)
step-Pending (Call.confirm_profile_deletion x) s h =
    confirm_profile_deletion_cases PendingOf s h x (λ _ _ _. h)
step-Pending (Call.profile_deletion_failed x y) s h =
    profile_deletion_failed_cases PendingOf s h x y (λ _. h)
step-Pending (Call.begin_provider_connection_with_persistence x y) s h =
    begin_provider_connection_with_persistence_cases PendingOf s h x y
      (λ e0 e1 e2 e3 e4 e5. ground arith)
step-Pending (Call.provider_connected_with_saved_profile x y z) s h =
    provider_connected_with_saved_profile_cases PendingOf s h x y z
      (λ e0 e1 e2 e3 e4 e5. ground arith)
step-Pending (Call.provider_connection_failed x y) s h =
    provider_connection_failed_cases PendingOf s h x y (λ e0. ground arith)
step-Pending (Call.provider_failed x) s h = ground arith
step-Pending (Call.begin_model_selection x) s h =
    begin_model_selection_cases PendingOf s h x (λ _ _ _ _ _. h)
step-Pending {d} (Call.confirm_model_selection x) s h =
    confirm_model_selection_cases PendingOf s x h (λ y saved. with_saved y x saved s h)
step-Pending (Call.confirm_model_selection_with_saved_profile x y z) s h = with_saved x y z s h
step-Pending (Call.model_selection_failed x y) s h =
    model_selection_failed_cases PendingOf s h x y (λ _. h)
step-Pending (Call.select_model x) s h = select_model_cases PendingOf s h x (λ _. h)
step-Pending Call.begin_translation s h =
    forget_cases PendingOf s (begin_translation s)
      (begin_translation_cases PendingOf s h (λ e0 e1 e2 e3 e4 e5 e6 e7. ground arith))
step-Pending Call.begin_document_translation s h =
    begin_document_translation_cases PendingOf s h (λ e0 e1 e2 e3 e4 e5. ground arith)
step-Pending (Call.set_document_output x) s h = h
step-Pending (Call.complete_document_translation x) s h = ground arith
step-Pending (Call.cancel_document_translation x) s h = ground arith
step-Pending (Call.pause_document_translation x) s h = ground arith
step-Pending (Call.fail_document_translation x y) s h = ground arith
step-Pending Call.request_cancellation s h =
    request_cancellation_cases PendingOf s h (λ e0. ground arith)
step-Pending {d} (Call.apply_translation_event x) s h =
    apply_translation_event_cases PendingOf s h x (λ _ _ _ _. body-Pending (d.body x) _ h)
step-Pending (Call.record_client_error x) s h = ground arith
step-Pending (Call.record_stream_error x) s h = ground arith
step-Pending (Call.record_operation_failure x) s h = ground arith
step-Pending Call.clear_workspace s h = ground arith
step-Pending (Call.record_routing_decision x) s h = h
step-Pending Call.mark_worker_ready s h = h
step-Pending Call.mark_worker_unavailable s h = h
step-Pending (Call.set_source_text x) s h = h
step-Pending (Call.set_source_locale x) s h = h
step-Pending (Call.set_target_locale x) s h = h
step-Pending (Call.set_glossary x) s h = h
step-Pending (Call.set_privacy_mode x) s h = h
step-Pending (Call.set_quality_mode x) s h = h
step-Pending (Call.set_translation_preset x) s h = h
step-Pending (Call.set_theme x) s h = h
step-Pending (Call.set_locale x) s h = h
step-Pending (Call.restore_translation_history_count x) s h = h
step-Pending (Call.restore_translation_history_enabled x) s h = h
step-Pending (Call.restore_translation_memory_count x) s h = h
step-Pending (Call.restore_translation_memory_enabled x) s h = h
step-Pending Call.clear_translation_history_count s h = h
step-Pending Call.clear_translation_memory_count s h = h
