-- ===== src/Domain.antt =====
-- What the client uses of the crate `linguamesh_domain` (LinguaMesh Core), which is not part of
-- this repository. It is a parameter of the model: opaque types with their accessors, and the
-- documented behaviour that the client relies on as laws.
use linguamesh_linux.Prelude.{ℕ, ◌≡◌, Bool, Option, some}
use linguamesh_linux.Prelude.Text.{Text}

-- The variants over which the client matches exhaustively (src/model.rs, `error_text`).
pub data ErrorKind : Type 0 where
  cancelled invalid_endpoint network timeout authentication rate_limited : ErrorKind
  model_unavailable malformed_response persistence protocol_incompatible : ErrorKind
  invalid_configuration unsupported_capability secret_unavailable : ErrorKind
  secure_storage_unavailable internal : ErrorKind

unfoldable pub ErrorKind-discrete : Discrete ErrorKind
ErrorKind-discrete = hlevel

-- What a match on a `TranslationEvent` sees, apart from the sequence number.
pub data EventBody (Usage Failure : Type 0) : Type 0 where
  started : EventBody Usage Failure
  text_delta : Text → EventBody Usage Failure
  completed : Option Usage → EventBody Usage Failure
  cancelled : EventBody Usage Failure
  failed : Failure → EventBody Usage Failure

pub record Domain : Type 1 where
  -- `ProviderProfileId`, compared by `==` and read by `as_str`.
  pub ProfileId : Type 0
  pub id_discrete : Discrete ProfileId
  pub as_str : ProfileId → Text
  pub as_str_injective : (a b : ProfileId) → as_str a ≡ as_str b → a ≡ b
  -- `SecretRef`: a reference to a secret of the session or of the secret store.
  pub SecretRef : Type 0
  pub is_persistent : SecretRef → Bool
  -- `ProviderProfile` and its accessors.
  pub Profile : Type 0
  pub profile_discrete : Discrete Profile
  pub id : Profile → ProfileId
  pub display_name : Profile → Text
  pub preset_id : Profile → Text
  pub Adapter : Type 0
  pub adapter_discrete : Discrete Adapter
  pub adapter_type : Profile → Adapter
  pub base_endpoint : Profile → Text
  pub enabled : Profile → Bool
  pub profile_model : Profile → Option Text
  pub secret_ref : Profile → Option SecretRef
  -- `with_selected_model` validates the model; where it succeeds it changes that field alone.
  pub with_selected_model : Profile → Option Text → Option Profile
  pub with_selected_model_id :
      (p q : Profile) (m : Option Text) → with_selected_model p m ≡ some q → id q ≡ id p
  pub with_selected_model_model :
      (p q : Profile) (m : Option Text) → with_selected_model p m ≡ some q → profile_model q ≡ m
  -- `RoutingMode`: its named values.
  pub RoutingMode : Type 0
  pub manual : RoutingMode
  pub ordered : RoutingMode
  pub automatic : RoutingMode
  -- `ModelDescriptor` and its field `id`.
  pub Model : Type 0
  pub model_id : Model → Text
  -- `TranslationError`, its constructor and its public fields.
  pub TranslationError : Type 0
  pub error_new : ErrorKind → Text → TranslationError
  pub kind : TranslationError → ErrorKind
  pub message : TranslationError → Text
  -- `TranslationEvent`: `sequence` and what a match sees.
  pub Usage : Type 0
  pub Event : Type 0
  pub sequence : Event → ℕ
  pub body : Event → EventBody Usage TranslationError
  -- What a request carries.
  pub Glossary : Type 0
  pub Privacy : Type 0
  pub standard : Privacy
  pub is_incognito_mode : Privacy → Bool
  pub Quality : Type 0
  pub balanced : Quality
  pub Preset : Type 0
  pub general : Preset
  -- `TranslationRequest` and its builder.
  pub Request : Type 0
  pub request_new : Text → Text → Text → Request
  pub with_source_locale : Request → Option Text → Request
  pub with_glossary : Request → Glossary → Request
  pub with_privacy_mode : Request → Privacy → Request
  pub with_quality_mode : Request → Quality → Request
  pub with_preset : Request → Preset → Request
