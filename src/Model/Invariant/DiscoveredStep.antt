-- ===== src/Model/Invariant/DiscoveredStep.antt =====
-- Every method keeps the choice of models within the discovered ones.
use linguamesh_linux.Prelude.{arith, List, Option, OnSome, ◌≡◌, not, filter_some, does}
use linguamesh_linux.Domain.{Domain, EventBody}
use linguamesh_linux.Model.Call.{Call, step, forget_cases}
use linguamesh_linux.Model.Saved.{profile_storage_unavailable, provider_failed}
use linguamesh_linux.Model.Saved.Cases.{
  restore_saved_profiles_cases, update_saved_profile_health_cases, select_saved_profile_cases,
  begin_profile_deletion_cases, confirm_profile_deletion_cases, profile_deletion_failed_cases,
}
use linguamesh_linux.Model.Connection.{
  confirm_model_selection_with_saved_profile, kept_model, is_discovered, connected,
}
use linguamesh_linux.Model.Connection.Cases.{
  begin_provider_connection_with_persistence_cases, provider_connected_with_saved_profile_cases,
  provider_connection_failed_cases, begin_model_selection_cases, confirm_model_selection_cases,
  confirm_model_selection_with_saved_profile_cases, model_selection_failed_cases,
  select_model_cases,
}
use linguamesh_linux.Model.Translation.{
  begin_translation, set_document_output, complete_document_translation,
  cancel_document_translation, pause_document_translation, fail_document_translation,
  record_client_error, record_stream_error, record_operation_failure, clear_workspace,
  record_routing_decision, apply_body,
}
use linguamesh_linux.Model.Translation.Cases.{
  begin_translation_cases, begin_document_translation_cases, request_cancellation_cases,
  apply_translation_event_cases,
}
use linguamesh_linux.Model.Settings.{
  mark_worker_ready, mark_worker_unavailable, set_source_text, set_source_locale, set_target_locale,
  set_glossary, set_privacy_mode, set_quality_mode, set_translation_preset, set_theme, set_locale,
  restore_translation_history_count, restore_translation_history_enabled,
  restore_translation_memory_count, restore_translation_memory_enabled,
  clear_translation_history_count, clear_translation_memory_count,
}
use linguamesh_linux.Prelude.{none, some, false, true}
use linguamesh_linux.Prelude.Text.{Text}
use linguamesh_linux.Model.State.{AppState}
use linguamesh_linux.Model.Invariant.{DiscoveredOf}

-- The model that a connection keeps is a discovered one.
kept_model-discovered :
    (d : Domain) (models : List d.Model) (o : Option Text)
    → OnSome (λ m. is_discovered d models m ≡ true) (filter_some (is_discovered d models) o)
kept_model-discovered d models none = tt
kept_model-discovered d models (some m) = ground arith

connected_model :
    (d : Domain) (x expected : d.Profile) (m : Option Text) (pending : d.Profile)
    → d.with_selected_model pending m ≡ some expected
    → not (does (d.profile_discrete x expected)) ≡ false
    → d.profile_model x ≡ m
connected_model d x expected m pending e e' =
    ground (arith, d.with_selected_model_model pending expected m)

connected-Discovered :
    {d : Domain} (x expected : d.Profile) (y : List d.Model) (z : Option d.Profile)
    (pending : d.Profile) (s : AppState d)
    → d.with_selected_model pending (kept_model d y pending) ≡ some expected
    → not (does (d.profile_discrete x expected)) ≡ false
    → DiscoveredOf (connected x y z s)
connected-Discovered {d} x expected y z pending s e e' = record {
  selected_discovered =
      rw (connected_model d x expected (kept_model d y pending) pending e e')
        (kept_model-discovered d y (d.profile_model pending));
  chosen_discovered = tt;
  provider_of_models = λ n. cc;
}

body-Discovered :
    {d : Domain} (b : EventBody d.Usage d.TranslationError) (s : AppState d)
    → DiscoveredOf s
    → DiscoveredOf (apply_body b s)
unfolding apply_body
body-Discovered EventBody.started s h = h
body-Discovered _ s h = h

with_saved :
    {d : Domain} (x : d.ProfileId) (y : Text) (z : Option d.Profile) (s : AppState d)
    → DiscoveredOf s
    → DiscoveredOf (confirm_model_selection_with_saved_profile x y z s).0
with_saved x y z s h =
    confirm_model_selection_with_saved_profile_cases DiscoveredOf s h x y z
      (λ e0 e1 e2 e3 e4 e5 e6 e7 e8. ground arith)

pub step-Discovered :
    {d : Domain} (c : Call d) (s : AppState d) → DiscoveredOf s → DiscoveredOf (step c s).0
unfolding step profile_storage_unavailable provider_failed set_document_output
    complete_document_translation cancel_document_translation pause_document_translation
    fail_document_translation record_client_error record_stream_error record_operation_failure
    clear_workspace record_routing_decision mark_worker_ready mark_worker_unavailable
    set_source_text set_source_locale set_target_locale set_glossary set_privacy_mode
    set_quality_mode set_translation_preset set_theme set_locale restore_translation_history_count
    restore_translation_history_enabled restore_translation_memory_count
    restore_translation_memory_enabled clear_translation_history_count
    clear_translation_memory_count
step-Discovered (Call.restore_saved_profiles x y) s h =
    restore_saved_profiles_cases DiscoveredOf s h x y (λ _ _ _. h)
step-Discovered (Call.update_saved_profile_health x) s h =
    update_saved_profile_health_cases DiscoveredOf s h x (λ e0 e1. ground arith)
step-Discovered (Call.profile_storage_unavailable x) s h = h
step-Discovered (Call.select_saved_profile x) s h =
    select_saved_profile_cases DiscoveredOf s h x (λ _ _ _ _ _. h)
step-Discovered (Call.begin_profile_deletion x) s h =
    begin_profile_deletion_cases DiscoveredOf s h x (λ _ _ _ _ _ _. h)
step-Discovered (Call.confirm_profile_deletion x) s h =
    confirm_profile_deletion_cases DiscoveredOf s h x (λ _ _ _. h)
step-Discovered (Call.profile_deletion_failed x y) s h =
    profile_deletion_failed_cases DiscoveredOf s h x y (λ _. h)
step-Discovered (Call.begin_provider_connection_with_persistence x y) s h =
    begin_provider_connection_with_persistence_cases DiscoveredOf s h x y (λ _ _ _ _ _ _. h)
step-Discovered (Call.provider_connected_with_saved_profile x y z) s h =
    provider_connected_with_saved_profile_cases DiscoveredOf s h x y z
      (λ e0 _ e2 e3 e4 _. connected-Discovered x e2 y z e0 s e3 e4)
step-Discovered (Call.provider_connection_failed x y) s h =
    provider_connection_failed_cases DiscoveredOf s h x y (λ _. h)
step-Discovered (Call.provider_failed x) s h = h
step-Discovered (Call.begin_model_selection x) s h =
    begin_model_selection_cases DiscoveredOf s h x (λ e0 e1 e2 e3 e4. ground arith)
step-Discovered {d} (Call.confirm_model_selection x) s h =
    confirm_model_selection_cases DiscoveredOf s x h (λ y saved. with_saved y x saved s h)
step-Discovered (Call.confirm_model_selection_with_saved_profile x y z) s h = with_saved x y z s h
step-Discovered (Call.model_selection_failed x y) s h =
    model_selection_failed_cases DiscoveredOf s h x y (λ e0. ground arith)
step-Discovered (Call.select_model x) s h =
    select_model_cases DiscoveredOf s h x (λ e0. ground arith)
step-Discovered Call.begin_translation s h =
    forget_cases DiscoveredOf s (begin_translation s)
      (begin_translation_cases DiscoveredOf s h (λ _ _ _ _ _ _ _ _. h))
step-Discovered Call.begin_document_translation s h =
    begin_document_translation_cases DiscoveredOf s h (λ _ _ _ _ _ _. h)
step-Discovered (Call.set_document_output x) s h = h
step-Discovered (Call.complete_document_translation x) s h = h
step-Discovered (Call.cancel_document_translation x) s h = h
step-Discovered (Call.pause_document_translation x) s h = h
step-Discovered (Call.fail_document_translation x y) s h = h
step-Discovered Call.request_cancellation s h = request_cancellation_cases DiscoveredOf s h (λ _. h)
step-Discovered {d} (Call.apply_translation_event x) s h =
    apply_translation_event_cases DiscoveredOf s h x (λ _ _ _ _. body-Discovered (d.body x) _ h)
step-Discovered (Call.record_client_error x) s h = h
step-Discovered (Call.record_stream_error x) s h = h
step-Discovered (Call.record_operation_failure x) s h = h
step-Discovered Call.clear_workspace s h = h
step-Discovered (Call.record_routing_decision x) s h = h
step-Discovered Call.mark_worker_ready s h = h
step-Discovered Call.mark_worker_unavailable s h = h
step-Discovered (Call.set_source_text x) s h = h
step-Discovered (Call.set_source_locale x) s h = h
step-Discovered (Call.set_target_locale x) s h = h
step-Discovered (Call.set_glossary x) s h = h
step-Discovered (Call.set_privacy_mode x) s h = h
step-Discovered (Call.set_quality_mode x) s h = h
step-Discovered (Call.set_translation_preset x) s h = h
step-Discovered (Call.set_theme x) s h = h
step-Discovered (Call.set_locale x) s h = h
step-Discovered (Call.restore_translation_history_count x) s h = h
step-Discovered (Call.restore_translation_history_enabled x) s h = h
step-Discovered (Call.restore_translation_memory_count x) s h = h
step-Discovered (Call.restore_translation_memory_enabled x) s h = h
step-Discovered Call.clear_translation_history_count s h = h
step-Discovered Call.clear_translation_memory_count s h = h
