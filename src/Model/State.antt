-- ===== src/Model/State.antt =====
-- src/model.rs, `AppState`: the state of the native client, its start and its queries.
use linguamesh_linux.Prelude.{
  ℕ, Bool, true, false, ◌||◌, not, List, [], Option, none, some, is_some, map_some, if◌then◌else◌,
}
use linguamesh_linux.Prelude.Text.{Text, codes}
use linguamesh_linux.Domain.{Domain}
use linguamesh_linux.Model.Locale.{UiLocale, english}
use linguamesh_linux.Model.Profiles.{saved_profile_by_id}
use linguamesh_linux.Model.Status.{
  AppStatus, ThemePreference, WorkerStartup, ProfileStorageStatus, OnboardingStage, StateError,
  Result, ok, err, is_connecting,
}

pub record RoutingDecisionSummary : Type 0 where
  pub profile_id : Text
  pub provider_id : Text
  pub model_id : Text
  pub eligible_count : ℕ
  pub rejected_count : ℕ
  pub fallback_count : ℕ
  pub eligible_candidates : List Text
  pub rejected_candidates : List Text
  pub ranking_inputs : List Text
  pub fallback_order : List Text

pub record AppState (d : Domain) : Type 0 where
  pub worker_startup : WorkerStartup
  pub active_provider : Option d.Profile
  pub pending_provider : Option d.Profile
  pub saved_profiles : List d.Profile
  pub selected_saved_profile_id : Option d.ProfileId
  pub persisted_active_profile_id : Option d.ProfileId
  pub active_saved_profile_id : Option d.ProfileId
  pub profile_storage_status : ProfileStorageStatus
  pub pending_profile_deletion : Option d.ProfileId
  pub pending_provider_will_be_saved : Bool
  pub models : List d.Model
  pub selected_model : Option Text
  pub pending_model_selection : Option Text
  pub source_text : Text
  pub source_locale : Option Text
  pub target_locale : Text
  pub glossary : Option d.Glossary
  pub privacy_mode : d.Privacy
  pub quality_mode : d.Quality
  pub translation_preset : d.Preset
  pub translation_history_count : ℕ
  pub translation_history_enabled : Bool
  pub translation_memory_count : ℕ
  pub translation_memory_enabled : Bool
  pub output : Text
  pub partial_output : Bool
  pub usage : Option d.Usage
  pub status : AppStatus
  pub error : Option d.TranslationError
  pub theme : ThemePreference
  pub locale : UiLocale
  pub last_sequence : Option ℕ
  pub routing_decision : Option RoutingDecisionSummary

-- `AppState::default`.
unfoldable pub initial : (d : Domain) → AppState d
initial d = record {
  worker_startup = WorkerStartup.pending;
  active_provider = none;
  pending_provider = none;
  saved_profiles = [];
  selected_saved_profile_id = none;
  persisted_active_profile_id = none;
  active_saved_profile_id = none;
  profile_storage_status = ProfileStorageStatus.pending;
  pending_profile_deletion = none;
  pending_provider_will_be_saved = false;
  models = [];
  selected_model = none;
  pending_model_selection = none;
  source_text = [];
  source_locale = none;
  target_locale = codes "zh-CN";
  glossary = none;
  privacy_mode = d.standard;
  quality_mode = d.balanced;
  translation_preset = d.general;
  translation_history_count = 0;
  translation_history_enabled = true;
  translation_memory_count = 0;
  translation_memory_enabled = true;
  output = [];
  partial_output = false;
  usage = none;
  status = AppStatus.disconnected;
  error = none;
  theme = ThemePreference.system;
  locale = english;
  last_sequence = none;
  routing_decision = none;
}

abbrev startup_is_ready : WorkerStartup → Bool
startup_is_ready WorkerStartup.ready = true
startup_is_ready _ = false

abbrev startup_is_failed : WorkerStartup → Bool
startup_is_failed WorkerStartup.failed = true
startup_is_failed _ = false

abbrev pub storage_is_available : ProfileStorageStatus → Bool
storage_is_available ProfileStorageStatus.available = true
storage_is_available _ = false

abbrev can_retry : AppStatus → Bool
can_retry AppStatus.cancelled = true
can_retry AppStatus.failed = true
can_retry _ = false

module _ {d : Domain} where
  abbrev pub worker_ready : AppState d → Bool
  worker_ready s = startup_is_ready s.worker_startup

  abbrev pub worker_unavailable : AppState d → Bool
  worker_unavailable s = startup_is_failed s.worker_startup

  abbrev pub can_retry_translation : AppState d → Bool
  can_retry_translation s = can_retry s.status

  abbrev pub profile_storage_available : AppState d → Bool
  profile_storage_available s = storage_is_available s.profile_storage_status

  unfoldable pub onboarding_stage : AppState d → OnboardingStage
  onboarding_stage s =
      if worker_unavailable s
      then OnboardingStage.unavailable
      else if not (worker_ready s)
      then OnboardingStage.starting
      else if is_connecting s.status
      then OnboardingStage.connecting
      else if not (is_some s.active_provider)
      then OnboardingStage.configure_provider
      else if is_some s.pending_model_selection || not (is_some s.selected_model)
      then OnboardingStage.select_model
      else OnboardingStage.ready

  abbrev pub provider_id : AppState d → Option d.ProfileId
  provider_id s = map_some d.id s.active_provider

  unfoldable pub selected_saved_profile : AppState d → Option d.Profile
  selected_saved_profile s = elim s.selected_saved_profile_id [
    | none ↦ none
    | some x ↦ saved_profile_by_id d s.saved_profiles x
  ]

  abbrev pub active_provider_is_saved : AppState d → Bool
  active_provider_is_saved s = is_some s.active_saved_profile_id

  abbrev pub is_incognito : AppState d → Bool
  is_incognito s = d.is_incognito_mode s.privacy_mode

  -- The end of a transition: refused with the state as it was, or done.
  abbrev pub reject : {A : Type 0} → AppState d → StateError → AppState d × Result A
  reject s e = (s, err e)

  abbrev pub accept : AppState d → AppState d × Result (Unit {0})
  accept s = (s, ok tt)
