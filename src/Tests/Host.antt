-- ===== src/Tests/Host.antt =====
use linguamesh_linux.Worker.Connect.Finish.{Builder, refs}
use linguamesh_linux.Prelude.{ap, sym, ◌≡◌, Bool, ◌⊎◌, arith}
use linguamesh_linux.Tests.Sample.{Ref, Provider, sample, SampleRequest}
use linguamesh_linux.Tests.Worker.{core}
use linguamesh_linux.Tests.Model.{alpha, two_models}
use linguamesh_linux.Domain.{ErrorKind}
use linguamesh_linux.Worker.Storage.{done}
use linguamesh_linux.Worker.Connect.{connected}
use linguamesh_linux.Worker.Host.{Host}
use linguamesh_linux.Prelude.{
  ℕ, Option, List, true, if◌then◌else◌, ◌==◌, some, ◌∷◌, none, [], inr, inl, false, ℕ_discrete,
  refl,
}
use linguamesh_linux.Worker.Documents.{DocumentCore, DocumentSegment}
use linguamesh_linux.Worker.Documents.Routed.{RoutingCore}
use linguamesh_linux.Prelude.Text.{Text, codes}

-- A concrete instance of what the worker uses of LinguaMesh Core for translations, documents and
-- routing, on which the witnesses run.

-- Operations are numbered by nothing: an operation is its request. The clock stands at 0, a sleep
-- ends, and a connection succeeds without a request for a secret.
abbrev pub host : Host sample core
host = record {
  cancelled_error = record { kind = ErrorKind.cancelled; message = [] };
  retry_after_ms = λ e. none;
  event_new = λ n b. record { number = n; content = b };
  sequence_event_new = λ n b. refl;
  body_event_new = λ n b. refl;
  Engine = Text;
  Operation = SampleRequest;
  active_engine = λ m. some m;
  translate = λ e q. q;
  request_model_id = λ q. codes "m1";
  request_is_incognito = λ q. false;
  with_provider_identity = λ q t. q;
  parse_profile_id = λ t. some t;
  candidate_key = λ x. x.provider_id;
  translation_history_enabled = λ s. done true;
  record_translation_history_with_usage = λ s q t u. (s, done tt);
  translation_history_count = λ s. done 1;
  translation_memory_enabled = λ s. done false;
  record_translation_memory = λ s q t. (s, done tt);
  Secret = ℕ;
  gui = true;
  World = ℕ;
  now = λ w. (w, 0);
  is_shutdown = λ w. (w, false);
  sleep = λ w n. (w, true);
  connection = λ w p. (w, ([], connected (done (p.key, two_models))));
}

-- The states of a document job: pending, running, paused, cancelled, failed, completed. A job has
-- two prose segments; it is completed when the second is stored.
abbrev segment : ℕ → Option Text → DocumentSegment
segment i t = record { index = i; is_prose = true; translated_text = t }

abbrev pub updated_job : ℕ → Text → List DocumentSegment
updated_job i t =
    if i == 0
    then segment 0 (some t) ∷ segment 1 none ∷ []
    else segment 0 (some []) ∷ segment 1 (some t) ∷ []

-- A write leaves a mark in front of the store: the text of a segment, or the state of a job.
abbrev pub marked_with : Text → List Provider → List Provider
marked_with t s = record alpha { name = t } ∷ s

abbrev pub documents : DocumentCore sample core
documents = record {
  Job = List DocumentSegment;
  segments = λ j. j;
  pending_count = λ j. 1;
  translation_source_text = λ j i. inr (codes "text");
  JobState = ℕ;
  state_discrete = ℕ_discrete;
  job_pending = 0;
  job_running = 1;
  job_paused = 2;
  job_cancelled = 3;
  job_failed = 4;
  job_completed = 5;
  is_resumable = λ s. true;
  Snapshot = ℕ × List DocumentSegment;
  state = λ s. s.0;
  job = λ s. s.1;
  options = λ s. none;
  document_job = λ s x. done none;
  set_document_job_state =
      λ s x v. (marked_with (v ∷ []) s, done (v, segment 0 none ∷ segment 1 none ∷ []));
  save_document_job_options = λ s x o. (s, done tt);
  update_document_segment =
      λ s x i t. (marked_with t s, done (if i == 0 then 1 else 5, updated_job i t));
}

abbrev pub routes : RoutingCore sample core
routes = record { RoutingProfile = ℕ; routing_profile = λ s x. done none; select = λ p x. inl [] }

abbrev built_or : Provider → Text ⊎ Provider → Provider
built_or p (inl _) = p
built_or p (inr q) = q

pub built_same :
    (p q : Provider) → ◌≡◌ {A = Text ⊎ Provider} (inr p) (inr q) → refs core q ≡ refs core p
built_same p q e = ap (λ v. refs core (built_or p v)) (sym e)

abbrev fresh_provider : Text → Text → Option Ref → Provider
fresh_provider i n r = record {
  key = i;
  name = n;
  model = none;
  is_enabled = true;
  secret = r;
  headers = none;
  proxy = none;
  certificate = none;
}

pub new_secret :
    (i n s : Text) (a : Bool) (e : Text) (r : Option Ref) (p : Provider)
    → ◌≡◌ {A = Text ⊎ Provider} (inr (fresh_provider i n r)) (inr p)
    → p.secret ≡ r
new_secret i n s a e r p f = ap (λ v. (built_or p v).secret) (sym f)

pub model_same :
    (m : Option Text) (p q : Provider)
    → sample.with_selected_model p m ≡ some q
    → refs core q ≡ refs core p
model_same none p q e = ground arith
model_same (some []) p q e = absurd (ground arith)
model_same (some (x ∷ m)) p q e = ground arith

-- The builders of a profile that keeps no texts and times.
abbrev pub builder : Builder sample core
builder = record {
  Time = ℕ;
  text_field = λ f p. none;
  time_field = λ f p. 0;
  profile_new = λ i n s a e r. inr (fresh_provider i n r);
  with_text = λ f t p. inr p;
  with_time = λ f t p. inr p;
  with_secret_custom_headers_ref = λ r p. record p { headers = r };
  with_proxy_auth_ref = λ r p. record p { proxy = r };
  with_client_certificate_identity_ref = λ r p. record p { certificate = r };
  with_enabled = λ b p. record p { is_enabled = b };
  profile_new_secret_ref = new_secret;
  refs_with_text = λ f t p q e. built_same p q e;
  refs_with_time = λ f t p q e. built_same p q e;
  refs_with_selected_model = model_same;
  refs_with_secret_custom_headers_ref = λ r p. refl;
  refs_with_proxy_auth_ref = λ r p. refl;
  refs_with_client_certificate_identity_ref = λ r p. refl;
  refs_with_enabled = λ b p. refl;
}
