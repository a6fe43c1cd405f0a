-- ===== src/Model/Diagnostics.antt =====
-- src/model.rs: the English texts of errors, and the diagnostics summary that a user may pass on.
use Prim.Native.String.{String}
use linguamesh_linux.Prelude.{
  ℕ, suc, zero, List, [], ◌∷◌, ◌++◌, if◌then◌else◌, ltb, Bool, Option, none, some, map_some,
  is_some, is_some_and, ◌/◌, ◌%◌, ◌+◌, length, refl, ◌≡◌,
}
use linguamesh_linux.Prelude.Text.{Text, codes}
use linguamesh_linux.Domain.{Domain, ErrorKind}
use linguamesh_linux.Model.Status.{
  StateError, OnboardingStage, ThemePreference, ProfileStorageStatus, status_label,
}
use linguamesh_linux.Model.State.{
  AppState, RoutingDecisionSummary, onboarding_stage, active_provider_is_saved,
  selected_saved_profile,
}
use linguamesh_linux.Model.Locale.{language_tag}

-- `impl fmt::Display for StateError`.
unfoldable pub state_error_text : StateError → Text
state_error_text StateError.missing_source = codes "Enter source text before translating."
state_error_text StateError.missing_model = codes "Select a model before translating."
state_error_text (StateError.unknown_model m) = codes "Model is not available: " ++ m
state_error_text StateError.model_selection_pending =
    codes "A model selection is still being confirmed."
state_error_text StateError.unexpected_model_selection =
    codes "The model selection result is stale or unexpected."
state_error_text StateError.invalid_profile = codes "The provider profile is disabled."
state_error_text StateError.missing_provider = codes "Connect a provider before translating."
state_error_text StateError.unexpected_provider_connection =
    codes "The provider connection result is stale or unexpected."
state_error_text StateError.busy = codes "A translation is already running."
state_error_text StateError.connecting = codes "A provider connection is still in progress."
state_error_text StateError.invalid_saved_profile =
    codes "The saved provider profile does not match this operation."
state_error_text StateError.profile_storage_unavailable =
    codes "Saved profile storage is unavailable."
state_error_text StateError.profile_deletion_pending =
    codes "A saved profile deletion is still being confirmed."
state_error_text StateError.unexpected_profile_deletion =
    codes "The saved profile deletion result is stale or unexpected."
state_error_text StateError.unexpected_first_event =
    codes "The core stream did not begin with a started event."
state_error_text StateError.unexpected_started_event =
    codes "The core stream produced more than one started event."
state_error_text StateError.non_increasing_sequence =
    codes "The core stream produced an out-of-order event."
state_error_text StateError.event_after_terminal =
    codes "The core stream produced an event after termination."

unfoldable pub stage_label : OnboardingStage → String
stage_label OnboardingStage.starting = "Starting"
stage_label OnboardingStage.unavailable = "Unavailable"
stage_label OnboardingStage.configure_provider = "Configure provider"
stage_label OnboardingStage.connecting = "Connecting"
stage_label OnboardingStage.select_model = "Select model"
stage_label OnboardingStage.ready = "Ready"

unfoldable pub theme_label : ThemePreference → String
theme_label ThemePreference.system = "System"
theme_label ThemePreference.light = "Light"
theme_label ThemePreference.dark = "Dark"

unfoldable pub storage_label : ProfileStorageStatus → String
storage_label ProfileStorageStatus.pending = "Pending"
storage_label ProfileStorageStatus.available = "Available"
storage_label ProfileStorageStatus.unavailable = "Unavailable"

-- The match of `error_text`.
unfoldable pub category_label : ErrorKind → String
category_label ErrorKind.cancelled = "Cancellation"
category_label ErrorKind.invalid_endpoint = "Invalid endpoint"
category_label ErrorKind.network = "Network"
category_label ErrorKind.timeout = "Timeout"
category_label ErrorKind.authentication = "Authentication"
category_label ErrorKind.rate_limited = "Rate limited"
category_label ErrorKind.model_unavailable = "Model unavailable"
category_label ErrorKind.malformed_response = "Malformed response"
category_label ErrorKind.persistence = "Persistence"
category_label ErrorKind.protocol_incompatible = "Protocol incompatible"
category_label ErrorKind.invalid_configuration = "Invalid configuration"
category_label ErrorKind.unsupported_capability = "Unsupported capability"
category_label ErrorKind.secret_unavailable = "Secret unavailable"
category_label ErrorKind.secure_storage_unavailable = "Secure storage unavailable"
category_label ErrorKind.internal = "Internal"

-- The decimal digits of a number below 10 ^ 20, as `usize` is: fuel 20 is enough.
abbrev digits_from : ℕ → ℕ → Text → Text
digits_from zero n acc = acc
digits_from (suc fuel) n acc =
    let rest = digits_from fuel (n / 10) ((48 + n % 10) ∷ acc) in
    if ltb n 10 then (48 + n) ∷ acc else rest

unfoldable pub decimal : ℕ → Text
decimal n = digits_from 20 n []

-- `values.join(", ")`.
abbrev join : List Text → Text
join [] = []
join (v ∷ []) = v
join (v ∷ w ∷ ws) = v ++ codes ", " ++ join (w ∷ ws)

abbrev render : List Text → Text
render [] = codes "None"
render (v ∷ vs) = join (v ∷ vs)

unfoldable pub routing_decision_text : Option RoutingDecisionSummary → Text
unfolding decimal
routing_decision_text none = codes "None"
routing_decision_text (some r) =
    r.profile_id
    ++ codes " -> "
    ++ r.provider_id
    ++ codes " (eligible "
    ++ decimal r.eligible_count
    ++ codes ", rejected "
    ++ decimal r.rejected_count
    ++ codes ", fallback "
    ++ decimal r.fallback_count
    ++ codes "): "
    ++ render r.eligible_candidates
    ++ codes " | "
    ++ render r.rejected_candidates
    ++ codes " | "
    ++ render r.ranking_inputs
    ++ codes " | "
    ++ render r.fallback_order

-- `String::len`: the bytes of UTF-8.
abbrev pub utf8_len : Text → ℕ
utf8_len [] = 0
utf8_len (c ∷ s) =
    (if ltb c 0x80 then 1 else if ltb c 0x800 then 2 else if ltb c 0x10000 then 3 else 4)
    + utf8_len s

abbrev yes_no : Bool → Text
yes_no b = if b then codes "Yes" else codes "No"

module _ {d : Domain} where
  unfoldable pub error_text : AppState d → Option Text
  error_text s =
      map_some (λ e. codes (category_label (d.kind e)) ++ codes ": " ++ d.message e) s.error

  -- `PROTOCOL_VERSION` of LinguaMesh Core is the parameter.
  unfoldable pub diagnostics_text : ℕ → AppState d → Text
  diagnostics_text protocol s =
      codes "Core protocol: "
      ++ decimal protocol
      ++ codes "\nOnboarding: "
      ++ codes (stage_label (onboarding_stage s))
      ++ codes "\nProvider: "
      ++ yes_no (is_some s.active_provider)
      ++ codes "\nProvider saved: "
      ++ yes_no (active_provider_is_saved s)
      ++ codes "\nProfile storage: "
      ++ codes (storage_label s.profile_storage_status)
      ++ codes "\nSaved profiles: "
      ++ decimal (length s.saved_profiles)
      ++ codes "\nSaved profile: "
      ++ yes_no (is_some s.selected_saved_profile_id)
      ++ codes "\nPersisted active profile: "
      ++ yes_no (is_some s.persisted_active_profile_id)
      ++ codes "\nSaved model: "
      ++ yes_no (is_some_and (selected_saved_profile s) (λ p. is_some (d.profile_model p)))
      ++ codes "\nModel selected: "
      ++ yes_no (is_some s.selected_model)
      ++ codes "\nModel selection pending: "
      ++ yes_no (is_some s.pending_model_selection)
      ++ codes "\nProfile deletion pending: "
      ++ yes_no (is_some s.pending_profile_deletion)
      ++ codes "\nRouting decision: "
      ++ routing_decision_text s.routing_decision
      ++ codes "\nStatus: "
      ++ codes (status_label s.status)
      ++ codes "\nTheme: "
      ++ codes (theme_label s.theme)
      ++ codes "\nLocale: "
      ++ codes (language_tag s.locale)
      ++ codes "\nOutput bytes: "
      ++ decimal (utf8_len s.output)

  -- The summary tells nothing of what the user translates: it is the same for every source text,
  -- glossary and error, and for every output with as many bytes.
  pub diagnostics_text-private :
      (protocol : ℕ) (s : AppState d) (source output : Text) (glossary : Option d.Glossary)
      (error : Option d.TranslationError)
      → utf8_len output ≡ utf8_len s.output
      → diagnostics_text protocol
          record s { source_text = source; output = output; glossary = glossary; error = error }
        ≡ diagnostics_text protocol s
  unfolding diagnostics_text onboarding_stage selected_saved_profile
  diagnostics_text-private protocol s source output glossary error e = rw e refl
