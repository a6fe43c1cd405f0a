-- ===== src/Model/Saved.antt =====
-- src/model.rs, the methods of `AppState` on the saved profiles: restoring the snapshot of the
-- store, the choice in the form, health updates, the loss of the store, and deletion.
pub mod Cases
pub mod Deletion
use linguamesh_linux.Prelude.{
  ℕ, false, not, ◌||◌, List, [], ◌∷◌, Option, none, some, is_some, is_some_and, any, set, remove_at,
  if◌then◌else◌,
}
use linguamesh_linux.Domain.{Domain}
use linguamesh_linux.Model.Profiles.{
  same_id, sort_saved_profiles, profile_position, has_session_secret, is_missing, is_id,
  has_duplicate, cleared, missing_or_disabled,
}
use linguamesh_linux.Model.State.{AppState, profile_storage_available, reject, accept}
use linguamesh_linux.Model.Status.{
  AppStatus, ProfileStorageStatus, Result, is_disconnected, is_connecting, is_busy, connecting,
  busy, invalid_saved_profile, profile_deletion_pending, model_selection_pending,
  profile_storage_unavailable as storage_unavailable, unexpected_profile_deletion,
}

module _ {d : Domain} where
  abbrev pub restored : List d.Profile → Option d.ProfileId → AppState d → AppState d
  restored ps active s = record s {
    saved_profiles = ps;
    selected_saved_profile_id = active;
    persisted_active_profile_id = active;
    active_saved_profile_id = none;
    profile_storage_status = ProfileStorageStatus.available;
    error = none;
  }

  unfoldable pub restore_saved_profiles :
      List d.Profile → Option d.ProfileId → AppState d → AppState d × Result (Unit {0})
  restore_saved_profiles saved active s =
      if not (is_disconnected s.status)
        || is_some s.active_provider
        || is_some s.pending_provider
        || is_some s.pending_profile_deletion
        || any (has_session_secret d) saved
      then reject s invalid_saved_profile
      else let sorted = sort_saved_profiles d saved in
        if has_duplicate d [] sorted
        then reject s invalid_saved_profile
        else if is_some_and active (missing_or_disabled d sorted)
        then reject s invalid_saved_profile
        else accept (restored sorted active s)

  unfoldable pub restore_saved_profile : d.Profile → AppState d → AppState d × Result (Unit {0})
  restore_saved_profile p s = restore_saved_profiles (p ∷ []) (some (d.id p)) s

  abbrev pub health_updated : d.Profile → ℕ → AppState d → AppState d
  health_updated p index s = record s {
    saved_profiles = set s.saved_profiles index p;
    active_provider =
        if is_some_and s.active_provider (λ active. same_id d (d.id active) (d.id p))
        then some p
        else s.active_provider;
  }

  unfoldable pub update_saved_profile_health :
      d.Profile → AppState d → AppState d × Result (Unit {0})
  update_saved_profile_health p s = elim (profile_position d s.saved_profiles (d.id p)) [
    | none ↦ reject s invalid_saved_profile
    | some index ↦ accept (health_updated p index s)
  ]

  unfoldable pub provider_failed : d.TranslationError → AppState d → AppState d
  provider_failed e s = record s {
    pending_provider = none;
    pending_provider_will_be_saved = false;
    status =
        if is_busy s.status
        then s.status
        else if is_some s.active_provider
        then AppStatus.ready
        else AppStatus.failed;
    error = some e;
  }

  unfoldable pub profile_storage_unavailable : d.TranslationError → AppState d → AppState d
  unfolding provider_failed
  profile_storage_unavailable e s = provider_failed e (record s {
    saved_profiles = [];
    selected_saved_profile_id = none;
    persisted_active_profile_id = none;
    active_saved_profile_id = none;
    pending_profile_deletion = none;
    profile_storage_status = ProfileStorageStatus.unavailable;
  })

  unfoldable pub select_saved_profile :
      Option d.ProfileId → AppState d → AppState d × Result (Unit {0})
  select_saved_profile x s =
      if is_some s.pending_profile_deletion
      then reject s profile_deletion_pending
      else if is_some s.pending_model_selection
      then reject s model_selection_pending
      else if is_connecting s.status
      then reject s connecting
      else if is_busy s.status
      then reject s busy
      else if is_some_and x (is_missing d s.saved_profiles)
      then reject s invalid_saved_profile
      else accept (record s { selected_saved_profile_id = x })

  unfoldable pub begin_profile_deletion : d.ProfileId → AppState d → AppState d × Result (Unit {0})
  begin_profile_deletion x s =
      if not (profile_storage_available s)
      then reject s storage_unavailable
      else if is_some s.pending_profile_deletion
      then reject s profile_deletion_pending
      else if is_connecting s.status
      then reject s connecting
      else if is_busy s.status
      then reject s busy
      else if is_some s.pending_model_selection
      then reject s model_selection_pending
      else if is_missing d s.saved_profiles x
      then reject s invalid_saved_profile
      else accept (record s { pending_profile_deletion = some x; error = none })

  abbrev pub deletion_confirmed : d.ProfileId → ℕ → AppState d → AppState d
  deletion_confirmed x index s = record s {
    saved_profiles = remove_at s.saved_profiles index;
    selected_saved_profile_id = cleared d x s.selected_saved_profile_id;
    persisted_active_profile_id = cleared d x s.persisted_active_profile_id;
    active_saved_profile_id = cleared d x s.active_saved_profile_id;
    pending_profile_deletion = none;
    error = none;
  }

  unfoldable pub confirm_profile_deletion :
      d.ProfileId → AppState d → AppState d × Result (Unit {0})
  confirm_profile_deletion x s =
      if not (is_id d s.pending_profile_deletion x)
      then reject s unexpected_profile_deletion
      else elim (profile_position d s.saved_profiles x) [
        | none ↦ reject s unexpected_profile_deletion
        | some index ↦ accept (deletion_confirmed x index s)
      ]

  unfoldable pub profile_deletion_failed :
      d.ProfileId → d.TranslationError → AppState d → AppState d × Result (Unit {0})
  profile_deletion_failed x e s =
      if not (is_id d s.pending_profile_deletion x)
      then reject s unexpected_profile_deletion
      else accept (record s { pending_profile_deletion = none; error = some e })
