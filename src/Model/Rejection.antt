-- ===== src/Model/Rejection.antt =====
-- A call that `AppState` refuses leaves the state as it was: one lemma for each method that can
-- refuse, and the statement about every call.
use linguamesh_linux.Prelude.{◌≡◌, Bool, List, Option, none, some, refl, arith}
use linguamesh_linux.Prelude.Text.{Text}
use linguamesh_linux.Domain.{Domain}
use linguamesh_linux.Model.Status.{StateError, Result, ok, err}
use linguamesh_linux.Model.State.{AppState}
use linguamesh_linux.Model.Saved.{
  restore_saved_profiles, update_saved_profile_health, select_saved_profile, begin_profile_deletion,
  confirm_profile_deletion, profile_deletion_failed,
}
use linguamesh_linux.Model.Connection.{
  begin_provider_connection_with_persistence, provider_connected_with_saved_profile,
  provider_connection_failed, begin_model_selection, confirm_model_selection, saved_counterpart,
  confirm_counterpart, confirm_active, confirm_model_selection_with_saved_profile,
  model_selection_failed, select_model, confirm_with_profiles,
}
use linguamesh_linux.Model.Translation.{
  begin_translation, begin_document_translation, request_cancellation, apply_translation_event,
}
use linguamesh_linux.Model.Call.{Call, step, forget}

-- The outcome kept the state, if it is an error.
abbrev pub Keeps : {d : Domain} {A : Type 0} → AppState d → AppState d × Result A → Type 0
Keeps s r = (e : StateError) → r.1 ≡ err e → r.0 ≡ s

module _ {d : Domain} (s : AppState d) where
  restore_saved_profiles-Keeps :
      (x : List d.Profile) (y : Option d.ProfileId) → Keeps s (restore_saved_profiles x y s)
  unfolding restore_saved_profiles
  restore_saved_profiles-Keeps x y e h = ground arith

  update_saved_profile_health-Keeps : (x : d.Profile) → Keeps s (update_saved_profile_health x s)
  unfolding update_saved_profile_health
  update_saved_profile_health-Keeps x e h = ground arith

  select_saved_profile-Keeps : (x : Option d.ProfileId) → Keeps s (select_saved_profile x s)
  unfolding select_saved_profile
  select_saved_profile-Keeps x e h = ground arith

  begin_profile_deletion-Keeps : (x : d.ProfileId) → Keeps s (begin_profile_deletion x s)
  unfolding begin_profile_deletion
  begin_profile_deletion-Keeps x e h = ground arith

  confirm_profile_deletion-Keeps : (x : d.ProfileId) → Keeps s (confirm_profile_deletion x s)
  unfolding confirm_profile_deletion
  confirm_profile_deletion-Keeps x e h = ground arith

  profile_deletion_failed-Keeps :
      (x : d.ProfileId) (y : d.TranslationError) → Keeps s (profile_deletion_failed x y s)
  unfolding profile_deletion_failed
  profile_deletion_failed-Keeps x y e h = ground arith

  begin_provider_connection_with_persistence-Keeps :
      (x : d.Profile) (y : Bool) → Keeps s (begin_provider_connection_with_persistence x y s)
  unfolding begin_provider_connection_with_persistence
  begin_provider_connection_with_persistence-Keeps x y e h = ground arith

  provider_connected_with_saved_profile-Keeps :
      (x : d.Profile) (y : List d.Model) (z : Option d.Profile)
      → Keeps s (provider_connected_with_saved_profile x y z s)
  unfolding provider_connected_with_saved_profile
  provider_connected_with_saved_profile-Keeps x y z e h = ground arith

  provider_connection_failed-Keeps :
      (x : d.Profile) (y : d.TranslationError) → Keeps s (provider_connection_failed x y s)
  unfolding provider_connection_failed
  provider_connection_failed-Keeps x y e h = ground arith

  begin_model_selection-Keeps : (x : Text) → Keeps s (begin_model_selection x s)
  unfolding begin_model_selection
  begin_model_selection-Keeps x e h = ground arith

  confirm_model_selection_with_saved_profile-Keeps :
      (x : d.ProfileId) (y : Text) (z : Option d.Profile)
      → Keeps s (confirm_model_selection_with_saved_profile x y z s)
  unfolding confirm_model_selection_with_saved_profile confirm_with_profiles
  confirm_model_selection_with_saved_profile-Keeps x y z e h = ground arith

  confirm_counterpart-Keeps :
      (r : Result (Option d.Profile)) (active : d.Profile) (x : Text)
      → Keeps s (confirm_counterpart r active x s)
  unfolding confirm_counterpart
  confirm_counterpart-Keeps (err _) active x e h = refl
  confirm_counterpart-Keeps (ok saved) active x e h =
      confirm_model_selection_with_saved_profile-Keeps (d.id active) x saved e h

  confirm_active-Keeps : (o : Option d.Profile) (x : Text) → Keeps s (confirm_active o x s)
  unfolding confirm_active
  confirm_active-Keeps none x e h = refl
  confirm_active-Keeps (some active) x e h =
      confirm_counterpart-Keeps (saved_counterpart (d.id active) x s) active x e h

  confirm_model_selection-Keeps : (x : Text) → Keeps s (confirm_model_selection x s)
  unfolding confirm_model_selection
  confirm_model_selection-Keeps x = confirm_active-Keeps s.active_provider x

  model_selection_failed-Keeps :
      (x : Text) (y : d.TranslationError) → Keeps s (model_selection_failed x y s)
  unfolding model_selection_failed
  model_selection_failed-Keeps x y e h = ground arith

  select_model-Keeps : (x : Text) → Keeps s (select_model x s)
  unfolding select_model
  select_model-Keeps x e h = ground arith

  begin_translation-Keeps : Keeps s (begin_translation s)
  unfolding begin_translation
  begin_translation-Keeps e h = ground arith

  begin_document_translation-Keeps : Keeps s (begin_document_translation s)
  unfolding begin_document_translation
  begin_document_translation-Keeps e h = ground arith

  request_cancellation-Keeps : Keeps s (request_cancellation s)
  unfolding request_cancellation
  request_cancellation-Keeps e h = ground arith

  apply_translation_event-Keeps : (x : d.Event) → Keeps s (apply_translation_event x s)
  unfolding apply_translation_event
  apply_translation_event-Keeps x e h = ground arith

forget-Keeps :
    {d : Domain} (s : AppState d) (r : AppState d × Result d.Request)
    → Keeps s r
    → Keeps s (forget r)
forget-Keeps s (t, ok _) keeps e h = cc
forget-Keeps s (t, err _) keeps e h = keeps e (cc)

-- A call that is refused changes nothing of the state.
pub step_err_unchanged :
    {d : Domain} (c : Call d) (s : AppState d) (e : StateError)
    → (step c s).1 ≡ err e
    → (step c s).0 ≡ s
unfolding step
step_err_unchanged (Call.restore_saved_profiles x y) s e h = restore_saved_profiles-Keeps s x y e h
step_err_unchanged (Call.update_saved_profile_health x) s e h =
    update_saved_profile_health-Keeps s x e h
step_err_unchanged (Call.profile_storage_unavailable x) s e h = cc
step_err_unchanged (Call.select_saved_profile x) s e h = select_saved_profile-Keeps s x e h
step_err_unchanged (Call.begin_profile_deletion x) s e h = begin_profile_deletion-Keeps s x e h
step_err_unchanged (Call.confirm_profile_deletion x) s e h = confirm_profile_deletion-Keeps s x e h
step_err_unchanged (Call.profile_deletion_failed x y) s e h =
    profile_deletion_failed-Keeps s x y e h
step_err_unchanged (Call.begin_provider_connection_with_persistence x y) s e h =
    begin_provider_connection_with_persistence-Keeps s x y e h
step_err_unchanged (Call.provider_connected_with_saved_profile x y z) s e h =
    provider_connected_with_saved_profile-Keeps s x y z e h
step_err_unchanged (Call.provider_connection_failed x y) s e h =
    provider_connection_failed-Keeps s x y e h
step_err_unchanged (Call.provider_failed x) s e h = cc
step_err_unchanged (Call.begin_model_selection x) s e h = begin_model_selection-Keeps s x e h
step_err_unchanged (Call.confirm_model_selection x) s e h = confirm_model_selection-Keeps s x e h
step_err_unchanged (Call.confirm_model_selection_with_saved_profile x y z) s e h =
    confirm_model_selection_with_saved_profile-Keeps s x y z e h
step_err_unchanged (Call.model_selection_failed x y) s e h = model_selection_failed-Keeps s x y e h
step_err_unchanged (Call.select_model x) s e h = select_model-Keeps s x e h
step_err_unchanged Call.begin_translation s e h =
    forget-Keeps s (begin_translation s) (begin_translation-Keeps s) e h
step_err_unchanged Call.begin_document_translation s e h = begin_document_translation-Keeps s e h
step_err_unchanged (Call.set_document_output x) s e h = cc
step_err_unchanged (Call.complete_document_translation x) s e h = cc
step_err_unchanged (Call.cancel_document_translation x) s e h = cc
step_err_unchanged (Call.pause_document_translation x) s e h = cc
step_err_unchanged (Call.fail_document_translation x y) s e h = cc
step_err_unchanged Call.request_cancellation s e h = request_cancellation-Keeps s e h
step_err_unchanged (Call.apply_translation_event x) s e h = apply_translation_event-Keeps s x e h
step_err_unchanged (Call.record_client_error x) s e h = cc
step_err_unchanged (Call.record_stream_error x) s e h = cc
step_err_unchanged (Call.record_operation_failure x) s e h = cc
step_err_unchanged Call.clear_workspace s e h = cc
step_err_unchanged (Call.record_routing_decision x) s e h = cc
step_err_unchanged Call.mark_worker_ready s e h = cc
step_err_unchanged Call.mark_worker_unavailable s e h = cc
step_err_unchanged (Call.set_source_text x) s e h = cc
step_err_unchanged (Call.set_source_locale x) s e h = cc
step_err_unchanged (Call.set_target_locale x) s e h = cc
step_err_unchanged (Call.set_glossary x) s e h = cc
step_err_unchanged (Call.set_privacy_mode x) s e h = cc
step_err_unchanged (Call.set_quality_mode x) s e h = cc
step_err_unchanged (Call.set_translation_preset x) s e h = cc
step_err_unchanged (Call.set_theme x) s e h = cc
step_err_unchanged (Call.set_locale x) s e h = cc
step_err_unchanged (Call.restore_translation_history_count x) s e h = cc
step_err_unchanged (Call.restore_translation_history_enabled x) s e h = cc
step_err_unchanged (Call.restore_translation_memory_count x) s e h = cc
step_err_unchanged (Call.restore_translation_memory_enabled x) s e h = cc
step_err_unchanged Call.clear_translation_history_count s e h = cc
step_err_unchanged Call.clear_translation_memory_count s e h = cc
