-- ===== src/Model/Invariant/SavedStep.antt =====
-- Every method keeps the saved profiles distinct, stored, and found by the identifiers in use.
use linguamesh_linux.Prelude.{arith, Option}
use linguamesh_linux.Domain.{Domain, EventBody}
use linguamesh_linux.Model.Call.{Call, step, forget_cases}
use linguamesh_linux.Model.Saved.{profile_storage_unavailable, provider_failed}
use linguamesh_linux.Model.Saved.Cases.{
  restore_saved_profiles_cases, update_saved_profile_health_cases, select_saved_profile_cases,
  begin_profile_deletion_cases, confirm_profile_deletion_cases, profile_deletion_failed_cases,
}
use linguamesh_linux.Model.Connection.{confirm_model_selection_with_saved_profile}
use linguamesh_linux.Model.Connection.Cases.{
  begin_provider_connection_with_persistence_cases, provider_connected_with_saved_profile_cases,
  provider_connection_failed_cases, begin_model_selection_cases, confirm_model_selection_cases,
  confirm_model_selection_with_saved_profile_cases, model_selection_failed_cases,
  select_model_cases,
}
use linguamesh_linux.Model.Translation.{
  begin_translation, set_document_output, complete_document_translation,
  cancel_document_translation, pause_document_translation, fail_document_translation,
  record_client_error, record_stream_error, record_operation_failure, clear_workspace,
  record_routing_decision, apply_body,
}
use linguamesh_linux.Model.Translation.Cases.{
  begin_translation_cases, begin_document_translation_cases, request_cancellation_cases,
  apply_translation_event_cases,
}
use linguamesh_linux.Model.Settings.{
  mark_worker_ready, mark_worker_unavailable, set_source_text, set_source_locale, set_target_locale,
  set_glossary, set_privacy_mode, set_quality_mode, set_translation_preset, set_theme, set_locale,
  restore_translation_history_count, restore_translation_history_enabled,
  restore_translation_memory_count, restore_translation_memory_enabled,
  clear_translation_history_count, clear_translation_memory_count,
}
use linguamesh_linux.Prelude.Text.{Text}
use linguamesh_linux.Model.State.{AppState}
use linguamesh_linux.Model.Invariant.{PendingOf, SavedOf}
use linguamesh_linux.Model.Invariant.SavedCommit.{
  restored-Saved, health_updated-Saved, deletion_confirmed-Saved, connected-Saved, confirmed-Saved,
}

body-Saved :
    {d : Domain} (b : EventBody d.Usage d.TranslationError) (s : AppState d)
    → SavedOf s
    → SavedOf (apply_body b s)
unfolding apply_body
body-Saved EventBody.started s h = h
body-Saved _ s h = h

with_saved :
    {d : Domain} (x : d.ProfileId) (y : Text) (z : Option d.Profile) (s : AppState d)
    → SavedOf s
    → SavedOf (confirm_model_selection_with_saved_profile x y z s).0
with_saved x y z s h =
    confirm_model_selection_with_saved_profile_cases SavedOf s h x y z
      (λ _ _ _ _ _ e5 _ _ e8. confirmed-Saved e5 x y z s e8 h)

pub step-Saved :
    {d : Domain} (c : Call d) (s : AppState d) → PendingOf s → SavedOf s → SavedOf (step c s).0
unfolding step profile_storage_unavailable provider_failed set_document_output
    complete_document_translation cancel_document_translation pause_document_translation
    fail_document_translation record_client_error record_stream_error record_operation_failure
    clear_workspace record_routing_decision mark_worker_ready mark_worker_unavailable
    set_source_text set_source_locale set_target_locale set_glossary set_privacy_mode
    set_quality_mode set_translation_preset set_theme set_locale restore_translation_history_count
    restore_translation_history_enabled restore_translation_memory_count
    restore_translation_memory_enabled clear_translation_history_count
    clear_translation_memory_count
step-Saved (Call.restore_saved_profiles x y) s p h =
    restore_saved_profiles_cases SavedOf s h x y
      (λ e0 e1 e2. restored-Saved x y s (ground arith) e1 e2)
step-Saved (Call.update_saved_profile_health x) s p h =
    update_saved_profile_health_cases SavedOf s h x (λ e0 e1. health_updated-Saved x e0 s e1 h)
step-Saved (Call.profile_storage_unavailable x) s p h = ground arith
step-Saved (Call.select_saved_profile x) s p h =
    select_saved_profile_cases SavedOf s h x (λ e0 e1 e2 e3 e4. ground (arith, h.selected_saved))
step-Saved (Call.begin_profile_deletion x) s p h =
    begin_profile_deletion_cases SavedOf s h x (λ e0 e1 e2 e3 e4 e5. ground arith)
step-Saved (Call.confirm_profile_deletion x) s p h =
    confirm_profile_deletion_cases SavedOf s h x (λ _ e1 e2. deletion_confirmed-Saved x e1 s e2 h)
step-Saved (Call.profile_deletion_failed x y) s p h =
    profile_deletion_failed_cases SavedOf s h x y (λ e0. ground arith)
step-Saved (Call.begin_provider_connection_with_persistence x y) s p h =
    begin_provider_connection_with_persistence_cases SavedOf s h x y (λ _ _ _ _ _ _. h)
step-Saved (Call.provider_connected_with_saved_profile x y z) s p h =
    provider_connected_with_saved_profile_cases SavedOf s h x y z
      (λ _ _ _ _ _ e5. connected-Saved x y z s e5 p h)
step-Saved (Call.provider_connection_failed x y) s p h =
    provider_connection_failed_cases SavedOf s h x y (λ _. h)
step-Saved (Call.provider_failed x) s p h = h
step-Saved (Call.begin_model_selection x) s p h =
    begin_model_selection_cases SavedOf s h x (λ _ _ _ _ _. h)
step-Saved {d} (Call.confirm_model_selection x) s p h =
    confirm_model_selection_cases SavedOf s x h (λ y saved. with_saved y x saved s h)
step-Saved (Call.confirm_model_selection_with_saved_profile x y z) s p h = with_saved x y z s h
step-Saved (Call.model_selection_failed x y) s p h =
    model_selection_failed_cases SavedOf s h x y (λ _. h)
step-Saved (Call.select_model x) s p h = select_model_cases SavedOf s h x (λ _. h)
step-Saved Call.begin_translation s p h =
    forget_cases SavedOf s (begin_translation s)
      (begin_translation_cases SavedOf s h (λ _ _ _ _ _ _ _ _. h))
step-Saved Call.begin_document_translation s p h =
    begin_document_translation_cases SavedOf s h (λ _ _ _ _ _ _. h)
step-Saved (Call.set_document_output x) s p h = h
step-Saved (Call.complete_document_translation x) s p h = h
step-Saved (Call.cancel_document_translation x) s p h = h
step-Saved (Call.pause_document_translation x) s p h = h
step-Saved (Call.fail_document_translation x y) s p h = h
step-Saved Call.request_cancellation s p h = request_cancellation_cases SavedOf s h (λ _. h)
step-Saved {d} (Call.apply_translation_event x) s p h =
    apply_translation_event_cases SavedOf s h x (λ _ _ _ _. body-Saved (d.body x) _ h)
step-Saved (Call.record_client_error x) s p h = h
step-Saved (Call.record_stream_error x) s p h = h
step-Saved (Call.record_operation_failure x) s p h = h
step-Saved Call.clear_workspace s p h = h
step-Saved (Call.record_routing_decision x) s p h = h
step-Saved Call.mark_worker_ready s p h = h
step-Saved Call.mark_worker_unavailable s p h = h
step-Saved (Call.set_source_text x) s p h = h
step-Saved (Call.set_source_locale x) s p h = h
step-Saved (Call.set_target_locale x) s p h = h
step-Saved (Call.set_glossary x) s p h = h
step-Saved (Call.set_privacy_mode x) s p h = h
step-Saved (Call.set_quality_mode x) s p h = h
step-Saved (Call.set_translation_preset x) s p h = h
step-Saved (Call.set_theme x) s p h = h
step-Saved (Call.set_locale x) s p h = h
step-Saved (Call.restore_translation_history_count x) s p h = h
step-Saved (Call.restore_translation_history_enabled x) s p h = h
step-Saved (Call.restore_translation_memory_count x) s p h = h
step-Saved (Call.restore_translation_memory_enabled x) s p h = h
step-Saved Call.clear_translation_history_count s p h = h
step-Saved Call.clear_translation_memory_count s p h = h
