-- ===== src/Model/Status.antt =====
-- src/model.rs, the enumerations of the client's state, and the outcome of a transition.
use Prim.Native.String.{String}
use linguamesh_linux.Prelude.{Bool, true, false}
use linguamesh_linux.Prelude.Text.{Text}

pub data AppStatus : Type 0 where
  disconnected connecting ready translating cancelling completed cancelled failed : AppStatus

unfoldable pub status_label : AppStatus → String
status_label disconnected = "Disconnected"
status_label connecting = "Connecting"
status_label ready = "Ready"
status_label translating = "Translating"
status_label cancelling = "Cancelling"
status_label completed = "Completed"
status_label cancelled = "Cancelled"
status_label failed = "Failed"

abbrev pub is_terminal : AppStatus → Bool
is_terminal completed = true
is_terminal cancelled = true
is_terminal failed = true
is_terminal _ = false

-- `matches!(status, Translating | Cancelling)`.
abbrev pub is_busy : AppStatus → Bool
is_busy translating = true
is_busy cancelling = true
is_busy _ = false

-- `status == AppStatus::Connecting`, and so on.
abbrev pub is_connecting : AppStatus → Bool
is_connecting connecting = true
is_connecting _ = false

abbrev pub is_disconnected : AppStatus → Bool
is_disconnected disconnected = true
is_disconnected _ = false

abbrev pub is_translating : AppStatus → Bool
is_translating translating = true
is_translating _ = false

abbrev pub is_cancelling : AppStatus → Bool
is_cancelling cancelling = true
is_cancelling _ = false

pub data OnboardingStage : Type 0 where
  starting unavailable configure_provider connecting select_model ready : OnboardingStage

pub data ThemePreference : Type 0 where
  system light dark : ThemePreference

pub data WorkerStartup : Type 0 where
  pending ready failed : WorkerStartup

pub data ProfileStorageStatus : Type 0 where
  pending available unavailable : ProfileStorageStatus

pub data StateError : Type 0 where
  missing_source missing_model : StateError
  unknown_model : Text → StateError
  model_selection_pending unexpected_model_selection invalid_profile : StateError
  missing_provider unexpected_provider_connection busy connecting : StateError
  invalid_saved_profile profile_storage_unavailable : StateError
  profile_deletion_pending unexpected_profile_deletion : StateError
  unexpected_first_event unexpected_started_event : StateError
  non_increasing_sequence event_after_terminal : StateError

-- `Result<A, StateError>`.
pub data Result (A : Type 0) : Type 0 where
  ok : A → Result A
  err : StateError → Result A

abbrev pub is_ok : {A : Type 0} → Result A → Bool
is_ok (ok a) = true
is_ok (err e) = false
