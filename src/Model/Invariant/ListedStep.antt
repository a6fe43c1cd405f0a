-- ===== src/Model/Invariant/ListedStep.antt =====
-- The saved profiles stay sorted and free of session secrets, if the health updates are faithful.
use linguamesh_linux.Prelude.{arith, List, Option, any, is_some_and, ◌∷◌, ◌≡◌, []}
use linguamesh_linux.Domain.{Domain, EventBody}
use linguamesh_linux.Model.Call.{Call, step, forget_cases, run}
use linguamesh_linux.Model.Saved.{profile_storage_unavailable, provider_failed, restored}
use linguamesh_linux.Model.Saved.Cases.{
  restore_saved_profiles_cases, update_saved_profile_health_cases, select_saved_profile_cases,
  begin_profile_deletion_cases, confirm_profile_deletion_cases, profile_deletion_failed_cases,
}
use linguamesh_linux.Model.Connection.{confirm_model_selection_with_saved_profile, unfit}
use linguamesh_linux.Model.Connection.Cases.{
  begin_provider_connection_with_persistence_cases, provider_connected_with_saved_profile_cases,
  provider_connection_failed_cases, begin_model_selection_cases, confirm_model_selection_cases,
  confirm_model_selection_with_saved_profile_cases, model_selection_failed_cases,
  select_model_cases,
}
use linguamesh_linux.Model.Translation.{
  begin_translation, set_document_output, complete_document_translation,
  cancel_document_translation, pause_document_translation, fail_document_translation,
  record_client_error, record_stream_error, record_operation_failure, clear_workspace,
  record_routing_decision, apply_body,
}
use linguamesh_linux.Model.Translation.Cases.{
  begin_translation_cases, begin_document_translation_cases, request_cancellation_cases,
  apply_translation_event_cases,
}
use linguamesh_linux.Model.Settings.{
  mark_worker_ready, mark_worker_unavailable, set_source_text, set_source_locale, set_target_locale,
  set_glossary, set_privacy_mode, set_quality_mode, set_translation_preset, set_theme, set_locale,
  restore_translation_history_count, restore_translation_history_enabled,
  restore_translation_memory_count, restore_translation_memory_enabled,
  clear_translation_history_count, clear_translation_memory_count,
}
use linguamesh_linux.Prelude.{none, some, false, refl}
use linguamesh_linux.Model.Profiles.{
  upsert_saved_profile, has_session_secret, sort_saved_profiles, replace_or_push,
}
use linguamesh_linux.Prelude.Text.{Text}
use linguamesh_linux.Model.State.{AppState, initial}
use linguamesh_linux.Model.Invariant.Listing.{Faithful, FaithfulRun, ListedOf, Listed}
use linguamesh_linux.Model.Profiles.Sorted.{Sorted-set, Sorted-sort, Sorted-remove_at}
use linguamesh_linux.Model.Profiles.Secrets.{
  NoSession-sort, NoSession-upsert, NoSession-set, NoSession-remove_at,
}

restored-Listed :
    {d : Domain} (x : List d.Profile) (y : Option d.ProfileId) (s : AppState d)
    → any (has_session_secret d) x ≡ false
    → ListedOf (restored (sort_saved_profiles d x) y s)
restored-Listed {d} x y s e = record {
  ordered = Sorted-sort d x;
  no_session = NoSession-sort d x e;
}

upsert-Listed :
    (d : Domain) (ps : List d.Profile) (u : d.Profile) (z : Option d.Profile)
    → is_some_and z (unfit d u) ≡ false
    → Listed d ps
    → Listed d (elim z [ none ↦ ps | some q ↦ upsert_saved_profile d ps q ])
unfolding upsert_saved_profile
upsert-Listed d ps u none e h = h
upsert-Listed d ps u (some q) e h = record {
  ordered = Sorted-sort d (replace_or_push d ps q);
  no_session = NoSession-upsert d ps q (ground arith) h.no_session;
}

body-Listed :
    {d : Domain} (b : EventBody d.Usage d.TranslationError) (s : AppState d)
    → ListedOf s
    → ListedOf (apply_body b s)
unfolding apply_body
body-Listed EventBody.started s h = h
body-Listed _ s h = h

with_saved :
    {d : Domain} (x : d.ProfileId) (y : Text) (z : Option d.Profile) (s : AppState d)
    → ListedOf s
    → ListedOf (confirm_model_selection_with_saved_profile x y z s).0
with_saved {d} x y z s h =
    confirm_model_selection_with_saved_profile_cases ListedOf s h x y z
      (λ _ _ _ _ _ e5 _ e7 _. upsert-Listed d s.saved_profiles e5 z e7 h)

pub step-Listed :
    {d : Domain} (c : Call d) (s : AppState d) → Faithful c s → ListedOf s → ListedOf (step c s).0
unfolding step profile_storage_unavailable provider_failed set_document_output
    complete_document_translation cancel_document_translation pause_document_translation
    fail_document_translation record_client_error record_stream_error record_operation_failure
    clear_workspace record_routing_decision mark_worker_ready mark_worker_unavailable
    set_source_text set_source_locale set_target_locale set_glossary set_privacy_mode
    set_quality_mode set_translation_preset set_theme set_locale restore_translation_history_count
    restore_translation_history_enabled restore_translation_memory_count
    restore_translation_memory_enabled clear_translation_history_count
    clear_translation_memory_count
step-Listed (Call.restore_saved_profiles x y) s p h =
    restore_saved_profiles_cases ListedOf s h x y (λ e0 e1 e2. restored-Listed x y s (ground arith))
step-Listed {d} (Call.update_saved_profile_health x) s p h =
    update_saved_profile_health_cases ListedOf s h x (λ e0 e1. record {
      ordered = Sorted-set d s.saved_profiles x e0 e1 p.0 h.ordered;
      no_session = NoSession-set d s.saved_profiles x e0 p.1 h.no_session;
    })
step-Listed (Call.profile_storage_unavailable x) s p h = record { ordered = tt; no_session = refl }
step-Listed (Call.select_saved_profile x) s p h =
    select_saved_profile_cases ListedOf s h x (λ _ _ _ _ _. h)
step-Listed (Call.begin_profile_deletion x) s p h =
    begin_profile_deletion_cases ListedOf s h x (λ _ _ _ _ _ _. h)
step-Listed {d} (Call.confirm_profile_deletion x) s p h =
    confirm_profile_deletion_cases ListedOf s h x (λ _ e1 _. record {
      ordered = Sorted-remove_at d s.saved_profiles e1 h.ordered;
      no_session = NoSession-remove_at d s.saved_profiles e1 h.no_session;
    })
step-Listed (Call.profile_deletion_failed x y) s p h =
    profile_deletion_failed_cases ListedOf s h x y (λ _. h)
step-Listed (Call.begin_provider_connection_with_persistence x y) s p h =
    begin_provider_connection_with_persistence_cases ListedOf s h x y (λ _ _ _ _ _ _. h)
step-Listed {d} (Call.provider_connected_with_saved_profile x y z) s p h =
    provider_connected_with_saved_profile_cases ListedOf s h x y z
      (λ e0 e1 e2 e3 e4 e5. upsert-Listed d s.saved_profiles x z (ground arith) h)
step-Listed (Call.provider_connection_failed x y) s p h =
    provider_connection_failed_cases ListedOf s h x y (λ _. h)
step-Listed (Call.provider_failed x) s p h = h
step-Listed (Call.begin_model_selection x) s p h =
    begin_model_selection_cases ListedOf s h x (λ _ _ _ _ _. h)
step-Listed {d} (Call.confirm_model_selection x) s p h =
    confirm_model_selection_cases ListedOf s x h (λ y saved. with_saved y x saved s h)
step-Listed (Call.confirm_model_selection_with_saved_profile x y z) s p h = with_saved x y z s h
step-Listed (Call.model_selection_failed x y) s p h =
    model_selection_failed_cases ListedOf s h x y (λ _. h)
step-Listed (Call.select_model x) s p h = select_model_cases ListedOf s h x (λ _. h)
step-Listed Call.begin_translation s p h =
    forget_cases ListedOf s (begin_translation s)
      (begin_translation_cases ListedOf s h (λ _ _ _ _ _ _ _ _. h))
step-Listed Call.begin_document_translation s p h =
    begin_document_translation_cases ListedOf s h (λ _ _ _ _ _ _. h)
step-Listed (Call.set_document_output x) s p h = h
step-Listed (Call.complete_document_translation x) s p h = h
step-Listed (Call.cancel_document_translation x) s p h = h
step-Listed (Call.pause_document_translation x) s p h = h
step-Listed (Call.fail_document_translation x y) s p h = h
step-Listed Call.request_cancellation s p h = request_cancellation_cases ListedOf s h (λ _. h)
step-Listed {d} (Call.apply_translation_event x) s p h =
    apply_translation_event_cases ListedOf s h x (λ _ _ _ _. body-Listed (d.body x) _ h)
step-Listed (Call.record_client_error x) s p h = h
step-Listed (Call.record_stream_error x) s p h = h
step-Listed (Call.record_operation_failure x) s p h = h
step-Listed Call.clear_workspace s p h = h
step-Listed (Call.record_routing_decision x) s p h = h
step-Listed Call.mark_worker_ready s p h = h
step-Listed Call.mark_worker_unavailable s p h = h
step-Listed (Call.set_source_text x) s p h = h
step-Listed (Call.set_source_locale x) s p h = h
step-Listed (Call.set_target_locale x) s p h = h
step-Listed (Call.set_glossary x) s p h = h
step-Listed (Call.set_privacy_mode x) s p h = h
step-Listed (Call.set_quality_mode x) s p h = h
step-Listed (Call.set_translation_preset x) s p h = h
step-Listed (Call.set_theme x) s p h = h
step-Listed (Call.set_locale x) s p h = h
step-Listed (Call.restore_translation_history_count x) s p h = h
step-Listed (Call.restore_translation_history_enabled x) s p h = h
step-Listed (Call.restore_translation_memory_count x) s p h = h
step-Listed (Call.restore_translation_memory_enabled x) s p h = h
step-Listed Call.clear_translation_history_count s p h = h
step-Listed Call.clear_translation_memory_count s p h = h

run-Listed :
    {d : Domain} (cs : List (Call d)) (s : AppState d)
    → FaithfulRun cs s
    → ListedOf s
    → ListedOf (run cs s)
unfolding run
run-Listed [] s f h = h
run-Listed (c ∷ cs) s f h = run-Listed cs (step c s).0 f.1 (step-Listed c s f.0 h)

-- From the start of the client, any history of calls whose health updates keep the name of the
-- saved profile and carry no session secret leads to a list of saved profiles that is sorted by
-- display name and identifier, and in which no profile refers to a secret of the session.
pub reachable-Listed :
    (d : Domain) (cs : List (Call d)) → FaithfulRun cs (initial d) → ListedOf (run cs (initial d))
unfolding initial
reachable-Listed d cs f = run-Listed cs (initial d) f (record { ordered = tt; no_session = refl })
