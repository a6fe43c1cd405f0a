-- ===== src/Tests/Model.antt =====
-- Witnesses of the theorems on the client's state, and a run of it.
use linguamesh_linux.Prelude.{
  ◌≡◌, refl, List, [], ◌∷◌, ◌++◌, none, some, true, ℕ, ◌↔◌, remove_at, if◌then◌else◌, false,
}
use linguamesh_linux.Prelude.Text.{Text, codes}
use linguamesh_linux.Domain.{EventBody, persistence}
use linguamesh_linux.Tests.Sample.{sample, Provider, Ref, SampleEvent, Failure}
use linguamesh_linux.Tests.Running.{running}
use linguamesh_linux.Model.Call.{Call, step, run}
use linguamesh_linux.Model.State.{AppState, initial}
use linguamesh_linux.Model.Rejection.{step_err_unchanged}
use linguamesh_linux.Model.Invariant.{Inv}
use linguamesh_linux.Model.Invariant.Listing.{ListedOf}
use linguamesh_linux.Model.Stream.{accepts, receive, Stream, texts}
use linguamesh_linux.Model.Status.{is_ok, missing_provider, ok, AppStatus}
use linguamesh_linux.Model.Translation.{begin_translation}
use linguamesh_linux.Model.Saved.{
  confirm_profile_deletion, begin_profile_deletion, profile_deletion_failed,
}
use linguamesh_linux.Model.Invariant.Reachable.{reachable-Inv}
use linguamesh_linux.Model.Invariant.ListedStep.{reachable-Listed}
use linguamesh_linux.Model.Translation.Request.{
  CanTranslate, onboarding-ready_translates, begin_translation_iff, Sends,
}
use linguamesh_linux.Model.Stream.Protocol.{accepts_iff_Stream}
use linguamesh_linux.Model.Stream.Outcome.{final_status, keeps_partial, translation_outcome}
use linguamesh_linux.Model.Profiles.{cleared, saved_profile_by_id, same_id}
use linguamesh_linux.Model.Saved.Deletion.{deletion_removes, deletion_rollback}

abbrev pub alpha : Provider
alpha = record {
  key = codes "a";
  name = codes "Alpha";
  model = none;
  is_enabled = true;
  secret = some Ref.persistent;
  headers = some Ref.persistent;
  proxy = some Ref.session;
  certificate = none;
}

abbrev pub beta : Provider
beta = record {
  key = codes "b";
  name = codes "Beta";
  model = none;
  is_enabled = true;
  secret = some Ref.session;
  headers = some Ref.persistent;
  proxy = some Ref.session;
  certificate = none;
}

abbrev pub two_models : List Text
two_models = codes "m1" ∷ codes "m2" ∷ []

-- The store is restored, and a provider connected, saved, and given a model.
abbrev pub session : List (Call sample)
session =
    Call.restore_saved_profiles (alpha ∷ []) none
    ∷ Call.begin_provider_connection_with_persistence alpha true
    ∷ Call.provider_connected_with_saved_profile alpha two_models (some alpha)
    ∷ Call.begin_model_selection (codes "m2")
    ∷ Call.confirm_model_selection (codes "m2")
    ∷ Call.set_source_text (codes "hello")
    ∷ []

session_model : (run session (initial sample)).selected_model ≡ some (codes "m2")
unfolding running
session_model = refl

step_err_unchanged_example :
    (step {d = sample} Call.begin_translation (initial sample)).0 ≡ initial sample
unfolding running
step_err_unchanged_example =
    step_err_unchanged {d = sample} Call.begin_translation (initial sample) missing_provider refl

reachable-Inv_example : Inv (run session (initial sample))
reachable-Inv_example = reachable-Inv sample session

-- The store is restored, and the saved profile's health reported.
abbrev checked : List (Call sample)
checked =
    Call.restore_saved_profiles (alpha ∷ []) none ∷ Call.update_saved_profile_health alpha ∷ []

reachable-Listed_example : ListedOf (run checked (initial sample))
unfolding running
reachable-Listed_example = reachable-Listed sample checked (tt, ((refl, refl), tt))

abbrev start_event : SampleEvent
start_event = record { number = 1; content = EventBody.started }

abbrev text_event : SampleEvent
text_event = record { number = 4; content = EventBody.text_delta (codes "hallo") }

abbrev stop_event : SampleEvent
stop_event = record { number = 5; content = EventBody.cancelled }

abbrev translating_state : AppState sample
translating_state = (step Call.begin_translation (run session (initial sample))).0

accepts_iff_Stream_example :
    ((accepts (start_event ∷ text_event ∷ []) translating_state ≡ true)
      ↔ Stream sample (start_event ∷ text_event ∷ []))
    × (Stream sample (start_event ∷ text_event ∷ [])
        → (receive (start_event ∷ text_event ∷ []) translating_state).output
          ≡ translating_state.output ++ texts sample (start_event ∷ text_event ∷ []))
unfolding running
accepts_iff_Stream_example =
    accepts_iff_Stream translating_state (start_event ∷ text_event ∷ []) refl refl

translation_outcome_example :
    let f =
      receive {d = sample}
        ((start_event ∷ text_event ∷ []) ++ stop_event ∷ [])
        (begin_translation (run session (initial sample))).0 in
    (f.output ≡ texts sample (start_event ∷ text_event ∷ []))
    × (f.status ≡ final_status stop_event.content)
    × (f.partial_output
        ≡ keeps_partial stop_event.content (texts sample (start_event ∷ text_event ∷ [])))
unfolding running
translation_outcome_example =
    translation_outcome (run session (initial sample)) (start_event ∷ text_event ∷ []) stop_event
      refl refl refl

-- The session, with a model and a source.
abbrev pub ready_state : AppState sample
ready_state = run session (initial sample)

begin_translation_iff_example :
    ((is_ok (begin_translation ready_state).1 ≡ true) ↔ CanTranslate ready_state)
    × ((m : Text)
        → CanTranslate ready_state
        → ready_state.selected_model ≡ some m
        → (r : sample.Request) × Sends ready_state m r
          × (begin_translation ready_state ≡ (
            record ready_state {
              output = [];
              partial_output = false;
              usage = none;
              error = none;
              last_sequence = none;
              status = AppStatus.translating;
            },
            ok r,
          )))
begin_translation_iff_example = begin_translation_iff ready_state

onboarding-ready_translates_example :
    is_ok (begin_translation (step Call.mark_worker_ready (run session (initial sample))).0).1
    ≡ true
unfolding running
onboarding-ready_translates_example =
    onboarding-ready_translates (step Call.mark_worker_ready (run session (initial sample))).0 refl
      refl refl refl

deletion_removes_example :
    let s = run session (initial sample) in
    (i : ℕ) × (confirm_profile_deletion (codes "a") (begin_profile_deletion (codes "a") s).0 ≡ (
      record s {
        saved_profiles = remove_at s.saved_profiles i;
        selected_saved_profile_id = cleared sample (codes "a") s.selected_saved_profile_id;
        persisted_active_profile_id = cleared sample (codes "a") s.persisted_active_profile_id;
        active_saved_profile_id = cleared sample (codes "a") s.active_saved_profile_id;
        pending_profile_deletion = none;
        error = none;
      },
      ok tt,
    ))
    × ((y : Text)
        → saved_profile_by_id sample (remove_at s.saved_profiles i) y ≡ (
            if same_id sample (codes "a") y
            then none
            else saved_profile_by_id sample s.saved_profiles y))
unfolding running
deletion_removes_example =
    deletion_removes (run session (initial sample)) (codes "a") (reachable-Inv sample session).saved
      refl

abbrev pub disk_error : Failure
disk_error = record { kind = persistence; message = codes "disk" }

deletion_rollback_example :
    profile_deletion_failed
      (codes "a")
      disk_error
      (begin_profile_deletion (codes "a") ready_state).0
    ≡ (record ready_state { error = some disk_error }, ok tt)
unfolding running
deletion_rollback_example = deletion_rollback ready_state (codes "a") disk_error refl
