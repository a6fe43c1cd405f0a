-- ===== src/Model/Connection.antt =====
-- src/model.rs, the methods of `AppState` that connect a provider and choose one of its models.
pub mod Cases
pub mod Commit
use linguamesh_linux.Prelude.{
  Bool, false, not, ◌||◌, ◌&&◌, List, Option, none, some, is_some, is_some_and, map_some,
  filter_some, bool_ne, does, any, if◌then◌else◌,
}
use linguamesh_linux.Prelude.Text.{Text, Text-discrete}
use linguamesh_linux.Domain.{Domain}
use linguamesh_linux.Model.Profiles.{
  same_id, saved_profile_by_id, upsert_saved_profile, profiles_match_except_secret,
  has_session_secret, is_missing, is_id,
}
use linguamesh_linux.Model.Saved.{provider_failed}
use linguamesh_linux.Model.State.{AppState, profile_storage_available, reject, accept}
use linguamesh_linux.Model.Status.{
  AppStatus, Result, ok, err, is_connecting, is_busy, connecting, busy, invalid_profile,
  invalid_saved_profile, profile_deletion_pending, model_selection_pending,
  profile_storage_unavailable, unexpected_provider_connection, missing_provider, unknown_model,
  unexpected_model_selection,
}

-- `pending_model_selection.as_deref() == Some(model_id)`.
abbrev pub is_model : Option Text → Text → Bool
is_model o m = is_some_and o (λ x. does (Text-discrete x m))

module _ (d : Domain) where
  -- `models.iter().any(|model| model.id == model_id)`.
  abbrev pub is_discovered : List d.Model → Text → Bool
  is_discovered models m = any (λ x. does (Text-discrete (d.model_id x) m)) models

  -- The model of the pending profile, if it was discovered.
  abbrev pub kept_model : List d.Model → d.Profile → Option Text
  kept_model models p = filter_some (is_discovered models) (d.profile_model p)

  -- A saved profile that does not stand for this runtime profile.
  abbrev pub unfit : d.Profile → d.Profile → Bool
  unfit runtime saved =
      has_session_secret d saved || not (profiles_match_except_secret d runtime saved)

module _ {d : Domain} where
  unfoldable pub begin_provider_connection_with_persistence :
      d.Profile → Bool → AppState d → AppState d × Result (Unit {0})
  begin_provider_connection_with_persistence p remember s =
      if not (d.enabled p)
      then reject s invalid_profile
      else if is_busy s.status
      then reject s busy
      else if is_some s.pending_profile_deletion
      then reject s profile_deletion_pending
      else if is_some s.pending_model_selection
      then reject s model_selection_pending
      else if is_connecting s.status
      then reject s connecting
      else if remember && not (profile_storage_available s)
      then reject s profile_storage_unavailable
      else accept (record s {
        pending_provider = some p;
        pending_provider_will_be_saved = remember;
        status = AppStatus.connecting;
        error = none;
      })

  unfoldable pub begin_provider_connection : d.Profile → AppState d → AppState d × Result (Unit {0})
  begin_provider_connection p s = begin_provider_connection_with_persistence p false s

  abbrev pub connected : d.Profile → List d.Model → Option d.Profile → AppState d → AppState d
  connected p models saved s = record s {
    active_provider = some p;
    pending_provider = none;
    pending_provider_will_be_saved = false;
    active_saved_profile_id = map_some d.id saved;
    saved_profiles = elim saved [
      | none ↦ s.saved_profiles
      | some q ↦ upsert_saved_profile d s.saved_profiles q
    ];
    selected_saved_profile_id = elim saved [
      | none ↦ s.selected_saved_profile_id
      | some q ↦ some (d.id q)
    ];
    persisted_active_profile_id = elim saved [
      | none ↦ s.persisted_active_profile_id
      | some q ↦ some (d.id q)
    ];
    models = models;
    selected_model = d.profile_model p;
    pending_model_selection = none;
    status = AppStatus.ready;
    error = none;
  }

  unfoldable pub provider_connected_with_saved_profile :
      d.Profile → List d.Model → Option d.Profile → AppState d → AppState d × Result (Unit {0})
  provider_connected_with_saved_profile p models saved s = elim s.pending_provider [
    | none ↦ reject s unexpected_provider_connection
    | some pending ↦ elim (d.with_selected_model pending (kept_model d models pending)) [
      | none ↦ reject s unexpected_provider_connection
      | some expected ↦
          if not (does (d.profile_discrete p expected))
          then reject s unexpected_provider_connection
          else if bool_ne s.pending_provider_will_be_saved (is_some saved)
              || is_some_and saved (unfit d p)
          then reject s invalid_saved_profile
          else accept (connected p models saved s)
    ]
  ]

  unfoldable pub provider_connected :
      d.Profile → List d.Model → AppState d → AppState d × Result (Unit {0})
  provider_connected p models s = provider_connected_with_saved_profile p models none s

  unfoldable pub provider_connection_failed :
      d.Profile → d.TranslationError → AppState d → AppState d × Result (Unit {0})
  provider_connection_failed p e s =
      if not (is_some_and s.pending_provider (λ q. does (d.profile_discrete q p)))
      then reject s unexpected_provider_connection
      else accept (provider_failed e s)

  unfoldable pub begin_model_selection : Text → AppState d → AppState d × Result (Unit {0})
  begin_model_selection m s =
      if is_connecting s.status
      then reject s connecting
      else if is_busy s.status
      then reject s busy
      else if is_some s.pending_profile_deletion
      then reject s profile_deletion_pending
      else if not (is_some s.active_provider)
      then reject s missing_provider
      else if not (is_discovered d s.models m)
      then reject s (unknown_model m)
      else accept (record s { pending_model_selection = some m; error = none })

  abbrev pub model_confirmed : d.Profile → Text → Option d.Profile → AppState d → AppState d
  model_confirmed updated m saved s = record s {
    active_provider = some updated;
    selected_model = some m;
    pending_model_selection = none;
    saved_profiles = elim saved [
      | none ↦ s.saved_profiles
      | some q ↦ upsert_saved_profile d s.saved_profiles q
    ];
  }

  -- The part that follows the checks on the identifiers: the profiles with the model.
  unfoldable pub confirm_with_profiles :
      d.Profile
      → d.ProfileId
      → Text
      → Option d.Profile
      → AppState d
      → AppState d × Result (Unit {0})
  confirm_with_profiles active x m saved s = elim (d.with_selected_model active (some m)) [
    | none ↦ reject s invalid_saved_profile
    | some updated ↦
        if is_some_and saved (unfit d updated)
        then reject s invalid_saved_profile
        else if is_some saved && is_missing d s.saved_profiles x
        then reject s invalid_saved_profile
        else accept (model_confirmed updated m saved s)
  ]

  unfoldable pub confirm_model_selection_with_saved_profile :
      d.ProfileId → Text → Option d.Profile → AppState d → AppState d × Result (Unit {0})
  confirm_model_selection_with_saved_profile x m saved s = elim s.active_provider [
    | none ↦ reject s missing_provider
    | some active ↦
        if not (same_id d (d.id active) x) || not (is_model s.pending_model_selection m)
        then reject s unexpected_model_selection
        else if not (is_discovered d s.models m)
        then reject s (unknown_model m)
        else if bool_ne (is_some s.active_saved_profile_id) (is_some saved)
        then reject s invalid_saved_profile
        else if is_some_and s.active_saved_profile_id
            (λ y. not (same_id d y x) || not (is_id d s.persisted_active_profile_id x))
        then reject s invalid_saved_profile
        else confirm_with_profiles active x m saved s
  ]

  -- The saved counterpart of the active profile, with the model: nothing for a session profile.
  unfoldable pub saved_counterpart : d.ProfileId → Text → AppState d → Result (Option d.Profile)
  saved_counterpart x m s = elim s.active_saved_profile_id [
    | none ↦ ok none
    | some y ↦
        if not (same_id d y x)
        then err invalid_saved_profile
        else elim (saved_profile_by_id d s.saved_profiles y) [
          | none ↦ err invalid_saved_profile
          | some q ↦ elim (d.with_selected_model q (some m)) [
            | none ↦ err invalid_saved_profile
            | some updated ↦ ok (some updated)
          ]
        ]
  ]

  -- The call with the counterpart, or its error.
  unfoldable pub confirm_counterpart :
      Result (Option d.Profile) → d.Profile → Text → AppState d → AppState d × Result (Unit {0})
  confirm_counterpart (err e) active m s = reject s e
  confirm_counterpart (ok saved) active m s =
      confirm_model_selection_with_saved_profile (d.id active) m saved s

  unfoldable pub confirm_active :
      Option d.Profile → Text → AppState d → AppState d × Result (Unit {0})
  unfolding saved_counterpart confirm_counterpart
  confirm_active none m s = reject s missing_provider
  confirm_active (some active) m s =
      confirm_counterpart (saved_counterpart (d.id active) m s) active m s

  unfoldable pub confirm_model_selection : Text → AppState d → AppState d × Result (Unit {0})
  unfolding confirm_active
  confirm_model_selection m s = confirm_active s.active_provider m s

  unfoldable pub model_selection_failed :
      Text → d.TranslationError → AppState d → AppState d × Result (Unit {0})
  model_selection_failed m e s =
      if not (is_model s.pending_model_selection m)
      then reject s unexpected_model_selection
      else accept (record s { pending_model_selection = none; error = some e })

  unfoldable pub select_model : Text → AppState d → AppState d × Result (Unit {0})
  select_model m s =
      if is_discovered d s.models m
      then accept (record s { selected_model = some m; pending_model_selection = none })
      else reject s (unknown_model m)
