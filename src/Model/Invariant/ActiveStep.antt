-- ===== src/Model/Invariant/ActiveStep.antt =====
-- Every method keeps the saved profile of the connection in step with the active provider.
use linguamesh_linux.Prelude.{arith, List, Option, is_some_and, bool_ne, ◌≡◌, ◌||◌}
use linguamesh_linux.Domain.{Domain, EventBody}
use linguamesh_linux.Model.Call.{Call, step, forget_cases}
use linguamesh_linux.Model.Saved.{profile_storage_unavailable, provider_failed}
use linguamesh_linux.Model.Saved.Cases.{
  restore_saved_profiles_cases, update_saved_profile_health_cases, select_saved_profile_cases,
  begin_profile_deletion_cases, confirm_profile_deletion_cases, profile_deletion_failed_cases,
}
use linguamesh_linux.Model.Connection.{confirm_model_selection_with_saved_profile, unfit, connected}
use linguamesh_linux.Model.Connection.Cases.{
  begin_provider_connection_with_persistence_cases, provider_connected_with_saved_profile_cases,
  provider_connection_failed_cases, begin_model_selection_cases, confirm_model_selection_cases,
  confirm_model_selection_with_saved_profile_cases, model_selection_failed_cases,
  select_model_cases,
}
use linguamesh_linux.Model.Translation.{
  begin_translation, set_document_output, complete_document_translation,
  cancel_document_translation, pause_document_translation, fail_document_translation,
  record_client_error, record_stream_error, record_operation_failure, clear_workspace,
  record_routing_decision, apply_body,
}
use linguamesh_linux.Model.Translation.Cases.{
  begin_translation_cases, begin_document_translation_cases, request_cancellation_cases,
  apply_translation_event_cases,
}
use linguamesh_linux.Model.Settings.{
  mark_worker_ready, mark_worker_unavailable, set_source_text, set_source_locale, set_target_locale,
  set_glossary, set_privacy_mode, set_quality_mode, set_translation_preset, set_theme, set_locale,
  restore_translation_history_count, restore_translation_history_enabled,
  restore_translation_memory_count, restore_translation_memory_enabled,
  clear_translation_history_count, clear_translation_memory_count,
}
use linguamesh_linux.Prelude.{none, some, false, refl}
use linguamesh_linux.Model.Profiles.{profiles_match_except_secret}
use linguamesh_linux.Prelude.Text.{Text}
use linguamesh_linux.Model.State.{AppState}
use linguamesh_linux.Model.Invariant.{ActiveOf, is_some, OnSome, map_some}

-- A saved profile that stands for a runtime profile has its identifier.
fit_id :
    (d : Domain) (p : d.Profile) (z : Option d.Profile)
    → is_some_and z (unfit d p) ≡ false
    → OnSome (λ x. map_some d.id (some p) ≡ some x) (map_some d.id z)
unfolding profiles_match_except_secret
fit_id d p none e = tt
fit_id d p (some q) e = ground arith

connected-Active :
    {d : Domain} (x : d.Profile) (y : List d.Model) (z : Option d.Profile) (s : AppState d)
    → (bool_ne s.pending_provider_will_be_saved (is_some z) || is_some_and z (unfit d x)) ≡ false
    → ActiveOf (connected x y z s)
connected-Active x y none s e = ground arith
connected-Active {d} x y (some q) s e = record {
  active_persisted = refl;
  active_provider_id = fit_id d x (some q) (ground arith);
}

body-Active :
    {d : Domain} (b : EventBody d.Usage d.TranslationError) (s : AppState d)
    → ActiveOf s
    → ActiveOf (apply_body b s)
unfolding apply_body
body-Active EventBody.started s h = h
body-Active _ s h = h

with_saved :
    {d : Domain} (x : d.ProfileId) (y : Text) (z : Option d.Profile) (s : AppState d)
    → ActiveOf s
    → ActiveOf (confirm_model_selection_with_saved_profile x y z s).0
with_saved {d} x y z s h =
    confirm_model_selection_with_saved_profile_cases ActiveOf s h x y z
      (λ e0 e1 e2 e3 e4 e5 e6 e7 e8. ground (arith, d.with_selected_model_id e0 e5 (some y)))

pub step-Active : {d : Domain} (c : Call d) (s : AppState d) → ActiveOf s → ActiveOf (step c s).0
unfolding step profile_storage_unavailable provider_failed set_document_output
    complete_document_translation cancel_document_translation pause_document_translation
    fail_document_translation record_client_error record_stream_error record_operation_failure
    clear_workspace record_routing_decision mark_worker_ready mark_worker_unavailable
    set_source_text set_source_locale set_target_locale set_glossary set_privacy_mode
    set_quality_mode set_translation_preset set_theme set_locale restore_translation_history_count
    restore_translation_history_enabled restore_translation_memory_count
    restore_translation_memory_enabled clear_translation_history_count
    clear_translation_memory_count
step-Active (Call.restore_saved_profiles x y) s h =
    restore_saved_profiles_cases ActiveOf s h x y (λ e0 e1 e2. ground arith)
step-Active (Call.update_saved_profile_health x) s h =
    update_saved_profile_health_cases ActiveOf s h x (λ e0 e1. ground arith)
step-Active (Call.profile_storage_unavailable x) s h = ground arith
step-Active (Call.select_saved_profile x) s h =
    select_saved_profile_cases ActiveOf s h x (λ _ _ _ _ _. h)
step-Active (Call.begin_profile_deletion x) s h =
    begin_profile_deletion_cases ActiveOf s h x (λ _ _ _ _ _ _. h)
step-Active (Call.confirm_profile_deletion x) s h =
    confirm_profile_deletion_cases ActiveOf s h x (λ e0 e1 e2. ground arith)
step-Active (Call.profile_deletion_failed x y) s h =
    profile_deletion_failed_cases ActiveOf s h x y (λ _. h)
step-Active (Call.begin_provider_connection_with_persistence x y) s h =
    begin_provider_connection_with_persistence_cases ActiveOf s h x y (λ _ _ _ _ _ _. h)
step-Active (Call.provider_connected_with_saved_profile x y z) s h =
    provider_connected_with_saved_profile_cases ActiveOf s h x y z
      (λ _ _ _ _ _ e5. connected-Active x y z s e5)
step-Active (Call.provider_connection_failed x y) s h =
    provider_connection_failed_cases ActiveOf s h x y (λ _. h)
step-Active (Call.provider_failed x) s h = h
step-Active (Call.begin_model_selection x) s h =
    begin_model_selection_cases ActiveOf s h x (λ _ _ _ _ _. h)
step-Active {d} (Call.confirm_model_selection x) s h =
    confirm_model_selection_cases ActiveOf s x h (λ y saved. with_saved y x saved s h)
step-Active (Call.confirm_model_selection_with_saved_profile x y z) s h = with_saved x y z s h
step-Active (Call.model_selection_failed x y) s h =
    model_selection_failed_cases ActiveOf s h x y (λ _. h)
step-Active (Call.select_model x) s h = select_model_cases ActiveOf s h x (λ _. h)
step-Active Call.begin_translation s h =
    forget_cases ActiveOf s (begin_translation s)
      (begin_translation_cases ActiveOf s h (λ _ _ _ _ _ _ _ _. h))
step-Active Call.begin_document_translation s h =
    begin_document_translation_cases ActiveOf s h (λ _ _ _ _ _ _. h)
step-Active (Call.set_document_output x) s h = h
step-Active (Call.complete_document_translation x) s h = h
step-Active (Call.cancel_document_translation x) s h = h
step-Active (Call.pause_document_translation x) s h = h
step-Active (Call.fail_document_translation x y) s h = h
step-Active Call.request_cancellation s h = request_cancellation_cases ActiveOf s h (λ _. h)
step-Active {d} (Call.apply_translation_event x) s h =
    apply_translation_event_cases ActiveOf s h x (λ _ _ _ _. body-Active (d.body x) _ h)
step-Active (Call.record_client_error x) s h = h
step-Active (Call.record_stream_error x) s h = h
step-Active (Call.record_operation_failure x) s h = h
step-Active Call.clear_workspace s h = h
step-Active (Call.record_routing_decision x) s h = h
step-Active Call.mark_worker_ready s h = h
step-Active Call.mark_worker_unavailable s h = h
step-Active (Call.set_source_text x) s h = h
step-Active (Call.set_source_locale x) s h = h
step-Active (Call.set_target_locale x) s h = h
step-Active (Call.set_glossary x) s h = h
step-Active (Call.set_privacy_mode x) s h = h
step-Active (Call.set_quality_mode x) s h = h
step-Active (Call.set_translation_preset x) s h = h
step-Active (Call.set_theme x) s h = h
step-Active (Call.set_locale x) s h = h
step-Active (Call.restore_translation_history_count x) s h = h
step-Active (Call.restore_translation_history_enabled x) s h = h
step-Active (Call.restore_translation_memory_count x) s h = h
step-Active (Call.restore_translation_memory_enabled x) s h = h
step-Active Call.clear_translation_history_count s h = h
step-Active Call.clear_translation_memory_count s h = h
