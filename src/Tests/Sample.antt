-- ===== src/Tests/Sample.antt =====
-- A concrete instance of the Core crate, on which the witnesses and tests run.
use linguamesh_linux.Prelude.{
  ℕ, suc, ◌≡◌, Bool, true, false, List, [], ◌∷◌, ◌++◌, Option, none, some, arith,
}
use linguamesh_linux.Prelude.Text.{Text, Text-discrete}
use linguamesh_linux.Domain.{Domain, EventBody, ErrorKind}
use linguamesh_linux.Model.Profiles.{Bool-discrete}

pub data Ref : Type 0 where
  session persistent : Ref

unfoldable pub Ref-discrete : Discrete Ref
Ref-discrete = hlevel

pub record Provider : Type 0 where
  pub key : Text
  pub name : Text
  pub model : Option Text
  pub is_enabled : Bool
  pub secret : Option Ref
  pub headers : Option Ref
  pub proxy : Option Ref
  pub certificate : Option Ref

-- Field by field.
unfoldable pub Provider-discrete : Discrete Provider
unfolding Text-discrete Ref-discrete Bool-discrete
Provider-discrete = hlevel (Text-discrete, Ref-discrete)

abbrev is_kept : Ref → Bool
is_kept session = false
is_kept persistent = true

abbrev ref_of : Provider → Option Ref
ref_of p = p.secret

-- An empty model identifier is refused.
abbrev with_model : Provider → Option Text → Option Provider
with_model p none = some (record p { model = none })
with_model p (some []) = none
with_model p (some (c ∷ m)) = some (record p { model = some (c ∷ m) })

pub with_model_key : (p q : Provider) (m : Option Text) → with_model p m ≡ some q → q.key ≡ p.key
with_model_key p q none e = ground arith
with_model_key p q (some []) e = cc
with_model_key p q (some (c ∷ m)) e = ground arith

pub with_model_model : (p q : Provider) (m : Option Text) → with_model p m ≡ some q → q.model ≡ m
with_model_model p q none e = ground arith
with_model_model p q (some []) e = cc
with_model_model p q (some (c ∷ m)) e = ground arith

pub record Failure : Type 0 where
  pub kind : ErrorKind
  pub message : Text

pub record SampleEvent : Type 0 where
  pub number : ℕ
  pub content : EventBody ℕ Failure

-- A request keeps its texts and counts the builder's calls.
pub record SampleRequest : Type 0 where
  pub texts : List Text
  pub calls : ℕ

abbrev called : SampleRequest → SampleRequest
called r = record r { calls = suc r.calls }

abbrev pub sample : Domain
sample = record {
  ProfileId = Text;
  id_discrete = Text-discrete;
  as_str = λ x. x;
  as_str_injective = λ a b e. e;
  SecretRef = Ref;
  is_persistent = is_kept;
  Profile = Provider;
  profile_discrete = Provider-discrete;
  id = λ p. p.key;
  display_name = λ p. p.name;
  preset_id = λ p. [];
  Adapter = Bool;
  adapter_discrete = Bool-discrete;
  adapter_type = λ p. true;
  base_endpoint = λ p. [];
  enabled = λ p. p.is_enabled;
  profile_model = λ p. p.model;
  secret_ref = ref_of;
  with_selected_model = with_model;
  with_selected_model_id = with_model_key;
  with_selected_model_model = with_model_model;
  RoutingMode = ℕ;
  manual = 0;
  ordered = 1;
  automatic = 2;
  Model = Text;
  model_id = λ m. m;
  TranslationError = Failure;
  error_new = λ k m. record { kind = k; message = m };
  kind = λ e. e.kind;
  message = λ e. e.message;
  Usage = ℕ;
  Event = SampleEvent;
  sequence = λ e. e.number;
  body = λ e. e.content;
  Glossary = Text;
  Privacy = Bool;
  standard = false;
  is_incognito_mode = λ b. b;
  Quality = ℕ;
  balanced = 0;
  Preset = ℕ;
  general = 0;
  Request = SampleRequest;
  request_new = λ a b c. record { texts = a ∷ b ∷ c ∷ []; calls = 0 };
  with_source_locale = λ r l. called r;
  with_glossary = λ r g. record (called r) { texts = r.texts ++ g ∷ [] };
  with_privacy_mode = λ r p. called r;
  with_quality_mode = λ r q. called r;
  with_preset = λ r p. called r;
}
