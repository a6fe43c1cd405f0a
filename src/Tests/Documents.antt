-- ===== src/Tests/Documents.antt =====
-- Witnesses of the theorems on the document jobs of the worker.
use linguamesh_linux.Tests.Sample.{sample, SampleRequest, SampleEvent, Failure}
use linguamesh_linux.Tests.Host.{host, documents, routes, updated_job, marked_with}
use linguamesh_linux.Tests.Worker.{core}
use linguamesh_linux.Tests.Model.{alpha}
use linguamesh_linux.Prelude.Text.{Text-discrete, Text, codes}
use linguamesh_linux.Prelude.{
  refl, [], List, Bool, ℕ, none, some, ◌∷◌, ◌≡◌, false, true, ◌≢◌, inl, arith,
}
use linguamesh_linux.Domain.{ErrorKind, EventBody}
use linguamesh_linux.Worker.Candidates.{begin_translation}
use linguamesh_linux.Worker.Documents.Capacity.{document_steps-Bounded, document_steps}
use linguamesh_linux.Worker.Documents.Stored.{document_events-stored}
use linguamesh_linux.Worker.Documents.Ended.{document_event-ended, EndsIn}
use linguamesh_linux.Worker.Documents.Asked.{pause_document_job-ends}
use linguamesh_linux.Worker.Documents.Cancelled.{cancel_document_job-continues}
use linguamesh_linux.Worker.Documents.Refused.{
  document_command-full, document_command-incognito, Unchanged,
}
use linguamesh_linux.Worker.Documents.Loop.{DocumentLoop, document_event}
use linguamesh_linux.Worker.Documents.Bounds.{BoundedLoop}
use linguamesh_linux.Worker.Documents.{
  get_document, ActiveDocumentTranslation, DocumentTranslationOptions,
}
use linguamesh_linux.Model.Stream.{texts}
use linguamesh_linux.Worker.Documents.Commands.{
  document_step, document_command, command, translate_document_job, cancel_document_job,
  pause_document_job, event, translate_document_job_with_routing, resume_document_job,
  retry_document_job,
}
use linguamesh_linux.Worker.Documents.Segments.{document_events}
use linguamesh_linux.Worker.Documents.Commands.{stream_ended}
use linguamesh_linux.Worker.Documents.Segment.{
  begin_document_segment, document_request, pending_segment,
}

abbrev asked : SampleRequest
asked = record { texts = []; calls = 0 }

-- A job on its first segment.
abbrev running_job : Text → ActiveDocumentTranslation sample core host
running_job x = record {
  job_id = x;
  segment_index = 0;
  source_locale = none;
  target_locale = codes "de";
  glossary = none;
  quality_mode = 0;
  translation_preset = 0;
  privacy_mode = false;
  model_id = codes "m1";
  provider_identity = none;
  operation = asked;
  provider_manager = none;
  output = codes "so ";
  cancel_requested = false;
  pause_requested = false;
  stop_after_active = false;
}

abbrev loop_with :
    List (ActiveDocumentTranslation sample core host) → DocumentLoop sample core host documents
loop_with ts = record {
  world = 0;
  storage = some [];
  manager = codes "m";
  routing_manager = none;
  active_profile = some alpha;
  selected_model = some (codes "m1");
  active_documents = ts;
  active_cancellation = none;
  cancelled = [];
  shutting_down = false;
  is_closed = false;
  sent = [];
}

abbrev two_jobs : DocumentLoop sample core host documents
two_jobs = loop_with (running_job (codes "x") ∷ running_job (codes "y") ∷ [])

abbrev four_jobs : DocumentLoop sample core host documents
four_jobs = loop_with (
    running_job (codes "x")
    ∷ running_job (codes "y")
    ∷ running_job (codes "z")
    ∷ running_job (codes "w")
    ∷ [])

abbrev options : Bool → DocumentTranslationOptions sample
options incognito = record {
  source_locale = none;
  target_locale = codes "de";
  glossary = none;
  quality_mode = 0;
  translation_preset = 0;
  privacy_mode = incognito;
  provider_identity = none;
}

abbrev with_body : EventBody ℕ Failure → SampleEvent
with_body b = record { number = 0; content = b }

abbrev lost : Failure
lost = record { kind = ErrorKind.network; message = [] }

document_steps-Bounded_example : BoundedLoop host documents (
    document_steps host documents routes
      (command (cancel_document_job (codes "y"))
        ∷ event (codes "x") 0 (with_body (EventBody.completed none))
        ∷ stream_ended (codes "y")
        ∷ [])
      two_jobs)
unfolding get_document Text-discrete
document_steps-Bounded_example =
    document_steps-Bounded host documents routes
      (command (cancel_document_job (codes "y"))
        ∷ event (codes "x") 0 (with_body (EventBody.completed none))
        ∷ stream_ended (codes "y")
        ∷ [])
      two_jobs (omega arith, (refl, (refl, tt)))

document_events-stored_example :
    (document_event host documents (codes "y") 0 (with_body (EventBody.completed none)) (
      document_events host documents
        (codes "y")
        0
        (with_body (EventBody.text_delta (codes "gut")) ∷ [])
        two_jobs)).storage
    ≡ some (documents.update_document_segment [] (codes "y") 0 (codes "so gut")).0
unfolding get_document texts Text-discrete
document_events-stored_example =
    document_events-stored host documents (codes "y") 0 (running_job (codes "y"))
      (with_body (EventBody.text_delta (codes "gut")) ∷ []) (with_body (EventBody.completed none))
      none [] two_jobs (refl, refl, refl, refl) refl refl ((codes "gut", refl), tt) refl

document_event-ended_example :
    let after =
      document_event host documents (codes "y") 0 (with_body (EventBody.failed lost)) two_jobs in
    (get_document (codes "y") after.active_documents ≡ none)
    × ((z : Text)
        → codes "y" ≢ z
        → get_document z after.active_documents ≡ get_document z two_jobs.active_documents)
    × ((v : ℕ) × EndsIn host documents (running_job (codes "y")) v
        × (after.storage ≡ some (documents.set_document_job_state [] (codes "y") v).0))
unfolding get_document Text-discrete
document_event-ended_example =
    document_event-ended host documents (codes "y") 0 (running_job (codes "y"))
      (with_body (EventBody.failed lost)) [] two_jobs (refl, refl, refl, refl) refl refl refl refl

pause_document_job-ends_example :
    let paused =
      document_step host documents routes (command (pause_document_job (codes "y"))) two_jobs in
    (paused.cancelled ≡ asked ∷ [])
    × (get_document
          (codes "y")
          (document_event host documents
            (codes "y")
            0
            (with_body (EventBody.completed none))
            paused).active_documents
        ≡ none)
unfolding get_document Text-discrete
pause_document_job-ends_example =
    pause_document_job-ends host documents routes (codes "y") 0 (running_job (codes "y"))
      (with_body (EventBody.completed none)) two_jobs (refl, refl, refl, refl) refl

document_command-full_example :
    let s = four_jobs in
    Unchanged host documents routes s (
      document_command host documents routes (translate_document_job (codes "v") (options false)) s)
    × Unchanged host documents routes s (
        document_command host documents routes
          (translate_document_job_with_routing (codes "v") (options false) (codes "r"))
          s)
    × Unchanged host documents routes s
        (document_command host documents routes (resume_document_job (codes "v")) s)
    × Unchanged host documents routes s
        (document_command host documents routes (retry_document_job (codes "v")) s)
document_command-full_example =
    document_command-full host documents routes (codes "v") (options false) (codes "r") four_jobs
      (inl (omega arith))

document_command-incognito_example :
    Unchanged host documents routes two_jobs (
      document_command host documents routes
        (translate_document_job (codes "v") (options true))
        two_jobs)
    × Unchanged host documents routes two_jobs (
        document_command host documents routes
          (translate_document_job_with_routing (codes "v") (options true) (codes "r"))
          two_jobs)
document_command-incognito_example =
    document_command-incognito host documents routes (codes "v") (options true) (codes "r") two_jobs
      refl

-- The second segment of the job.
abbrev second_segment : ActiveDocumentTranslation sample core host
second_segment = record (running_job (codes "y")) {
  segment_index = 1;
  provider_identity = some (codes "a@");
  operation = record { texts = codes "text" ∷ codes "de" ∷ codes "m1" ∷ []; calls = 3 };
  output = [];
}

cancel_document_job-continues_example :
    let asked_to =
      document_step host documents routes (command (cancel_document_job (codes "y"))) two_jobs in
    (asked_to.cancelled ≡ asked ∷ [])
    × (get_document
          (codes "y")
          (document_event host documents
            (codes "y")
            0
            (with_body (EventBody.completed none))
            asked_to).active_documents
        ≡ some second_segment)
    × (second_segment.cancel_requested ≡ false)
unfolding get_document Text-discrete begin_document_segment document_request pending_segment
    begin_translation
cancel_document_job-continues_example =
    cancel_document_job-continues host documents routes (codes "y") 0 (running_job (codes "y"))
      second_segment (with_body (EventBody.completed none)) none (1, updated_job 0 (codes "so ")) []
      (marked_with (codes "so ") []) two_jobs (refl, refl, refl, refl)
      (omega arith, (refl, (refl, tt))) refl refl refl refl refl (λ e. ground arith) refl
