-- ===== src/Worker/Host.antt =====
-- What the worker's handling of translations uses of LinguaMesh Core and of the system, beyond
-- `Core`: a parameter of the model, with the documented behaviour that is relied on as laws.
use linguamesh_linux.Prelude.{ℕ, Option, List, Bool, ◌≡◌}
use linguamesh_linux.Prelude.Text.{Text}
use linguamesh_linux.Domain.{Domain, EventBody}
use linguamesh_linux.Worker.Storage.{Core, Outcome}
use linguamesh_linux.Worker.Connect.{SecretRequest, Ending}

-- `RoutingCandidate`, its two fields.
pub record RoutingCandidate : Type 0 where
  pub provider_id : Text
  pub model_id : Text

pub record Host (d : Domain) (c : Core d) : Type 1 where
  -- `TranslationError::cancelled()`, and the field `retry_after_ms`.
  pub cancelled_error : d.TranslationError
  pub retry_after_ms : d.TranslationError → Option ℕ
  -- The constructors of `TranslationEvent`: a number and a content.
  pub event_new : ℕ → EventBody d.Usage d.TranslationError → d.Event
  pub sequence_event_new :
      (n : ℕ) (b : EventBody d.Usage d.TranslationError) → d.sequence (event_new n b) ≡ n
  pub body_event_new :
      (n : ℕ) (b : EventBody d.Usage d.TranslationError) → d.body (event_new n b) ≡ b
  -- The engine of a connected provider, and the operations that it starts.
  pub Engine : Type 0
  pub Operation : Type 0
  pub active_engine : c.Manager → Option Engine
  pub translate : Engine → d.Request → Operation
  -- Requests.
  pub request_model_id : d.Request → Text
  pub request_is_incognito : d.Request → Bool
  pub with_provider_identity : d.Request → Text → d.Request
  -- `ProviderProfileId::parse`, and `RoutingCandidate::key`.
  pub parse_profile_id : Text → Option d.ProfileId
  pub candidate_key : RoutingCandidate → Text
  -- The store of the history and of the translation memory.
  pub translation_history_enabled : c.Storage → Outcome d Bool
  pub record_translation_history_with_usage :
      c.Storage → d.Request → Text → Option d.Usage → c.Storage × Outcome d (Unit {0})
  pub translation_history_count : c.Storage → Outcome d ℕ
  pub translation_memory_enabled : c.Storage → Outcome d Bool
  pub record_translation_memory : c.Storage → d.Request → Text → c.Storage × Outcome d (Unit {0})
  -- Whether the program is built with the GUI, and the world outside: the clock in milliseconds, whether a shutdown is asked for, whether a sleep
  -- ends before that, and what happens while a provider is connected.
  pub Secret : Type 0
  pub gui : Bool
  pub World : Type 0
  pub now : World → World × ℕ
  pub is_shutdown : World → World × Bool
  pub sleep : World → ℕ → World × Bool
  pub connection : World → d.Profile → World × (List (SecretRequest d Secret) × Ending d c)
