-- ===== src/Worker/Documents/Capacity.antt =====
use linguamesh_linux.Domain.{Domain}
use linguamesh_linux.Worker.Storage.{Core, Outcome, failed, done, outcome_cases}
use linguamesh_linux.Worker.Host.{Host}
use linguamesh_linux.Worker.Documents.{
  DocumentCore, ActiveDocumentTranslation, DocumentTranslationOptions, ensure_document_job_capacity,
  get_document,
}
use linguamesh_linux.Worker.Documents.Routed.{
  RoutingCore, start_routed_document_job_translation, RoutedDocumentStart,
}
use linguamesh_linux.Worker.Documents.Resumed.{ResumedDocumentStart, plain}
use linguamesh_linux.Worker.Documents.Commands.{
  translate_job, resume_job, translate_job_with_routing, mark_one, activate_resumed, DocumentStep,
  document_step, document_command, event, asked_to_cancel, cancel_document_job, pause_document_job,
  asked_to_pause, translate_document_job, translate_document_job_with_routing, resume_document_job,
  retry_document_job, DocumentCommand, activate_routed, connect, command, test_connection, cancel,
  shutdown, text_event, other_command,
}
use linguamesh_linux.Prelude.Text.{Text}
use linguamesh_linux.Worker.Documents.Loop.{
  DocumentLoop, reject_action, document_job_action_rejected, set_document_cancellations,
  routing_decision_selected, provider_rejected, connection_test_rejected,
}
use linguamesh_linux.Prelude.{Bool, option_cases, List, false, ◌∷◌, [], true, some, refl}
use linguamesh_linux.Worker.Documents.MapBounds.{KeepsJob, modify-Bounded, map-Bounded}
use linguamesh_linux.Worker.Documents.Bounds.{
  BoundedLoop, activate_in-Bounded, tell-Bounded, document_event-Bounded,
  document_stream_ended-Bounded,
}
-- src/worker.rs, `run_worker`: how many document jobs are translated at a time, in the whole course of
-- the loop.
use linguamesh_linux.Worker.Documents.Resumed.{routed}
use linguamesh_linux.Worker.Documents.Commands.{stream_ended, asked_to_stop}
use linguamesh_linux.Worker.Documents.Loop.{operation_failed}
use linguamesh_linux.Worker.Documents.Commands.{channel_closed}

module _ {d : Domain} {c : Core d} (h : Host d c) (k : DocumentCore d c) (r : RoutingCore d c) where
  mark_one-Bounded :
      (f : ActiveDocumentTranslation d c h → ActiveDocumentTranslation d c h) (job_id : Text)
      (s : DocumentLoop d c h k)
      → KeepsJob f
      → BoundedLoop h k s
      → BoundedLoop h k (mark_one h k r f job_id s)
  mark_one-Bounded f job_id s keeps b =
      option_cases (BoundedLoop h k) (get_document job_id s.active_documents)
        (λ _. tell-Bounded h k (document_job_action_rejected _) s b)
        λ t _. modify-Bounded job_id f keeps s.active_documents b

  -- A start of a job: refused at the capacity, or with the storage.
  start-Bounded :
      (o : Outcome d (Unit {0})) (s t : DocumentLoop d c h k)
      → BoundedLoop h k s
      → BoundedLoop h k t
      → BoundedLoop h k (elim o [ failed e ↦ reject_action h k e s | done _ ↦ t ])
  start-Bounded o s t b b' =
      outcome_cases (BoundedLoop h k) o
        (λ e _. tell-Bounded h k (document_job_action_rejected e) s b) (λ _ _. b')

  translate_job-Bounded :
      (job_id : Text) (o : DocumentTranslationOptions d) (s : DocumentLoop d c h k)
      → BoundedLoop h k s
      → BoundedLoop h k (translate_job h k r job_id o s)
  unfolding translate_job
  translate_job-Bounded job_id o s b =
      start-Bounded (ensure_document_job_capacity s.active_documents job_id) s _ b
        (activate_in-Bounded h k _ _ b)

  activate_routed-Bounded :
      (start : RoutedDocumentStart d c h) (s : DocumentLoop d c h k)
      → BoundedLoop h k s
      → BoundedLoop h k (activate_routed h k r start s)
  activate_routed-Bounded start s b =
      activate_in-Bounded h k
        (done record start.translation { provider_manager = some start.manager }) s b

  activate_resumed-Bounded :
      (o : Outcome d (ResumedDocumentStart d c h)) (s : DocumentLoop d c h k)
      → BoundedLoop h k s
      → BoundedLoop h k (activate_resumed h k r o s)
  activate_resumed-Bounded (failed e) s b = tell-Bounded h k (document_job_action_rejected e) s b
  activate_resumed-Bounded (done (plain t)) s b = activate_in-Bounded h k (done t) s b
  activate_resumed-Bounded (done (routed start)) s b = activate_routed-Bounded start s b

  resume_job-Bounded :
      (job_id : Text) (retry : Bool) (s : DocumentLoop d c h k)
      → BoundedLoop h k s
      → BoundedLoop h k (resume_job h k r job_id retry s)
  unfolding resume_job
  resume_job-Bounded job_id retry s b =
      start-Bounded (ensure_document_job_capacity s.active_documents job_id) s _ b (
        option_cases (BoundedLoop h k) s.storage
          (λ _. tell-Bounded h k (document_job_action_rejected _) s b)
          λ x _. activate_resumed-Bounded _ _ b)

  translate_job_with_routing-Bounded :
      (job_id : Text) (o : DocumentTranslationOptions d) (routing_profile_id : Text)
      (s : DocumentLoop d c h k)
      → BoundedLoop h k s
      → BoundedLoop h k (translate_job_with_routing h k r job_id o routing_profile_id s)
  unfolding translate_job_with_routing
  translate_job_with_routing-Bounded job_id o routing_profile_id s b =
      start-Bounded (ensure_document_job_capacity s.active_documents job_id) s _ b (
        option_cases (BoundedLoop h k) s.storage
          (λ _. tell-Bounded h k (document_job_action_rejected _) s b)
          λ x _.
            outcome_cases (BoundedLoop h k)
              (start_routed_document_job_translation h k r s.world x job_id o routing_profile_id
                false).1.1
              (λ e _. tell-Bounded h k (document_job_action_rejected e) _ b)
              (λ start _. activate_routed-Bounded start _ (
                tell-Bounded h k
                  (routing_decision_selected routing_profile_id start.provider_id start.model_id
                    start.eligible_count start.rejected_count 0 start.decision_details)
                  record s {
                    world =
                        (start_routed_document_job_translation h k r s.world x job_id o
                          routing_profile_id false).0;
                    storage =
                        some
                          (start_routed_document_job_translation h k r s.world x job_id o
                            routing_profile_id false).1.0;
                  }
                  b)))

  document_command-Bounded :
      (x : DocumentCommand d) (s : DocumentLoop d c h k)
      → BoundedLoop h k s
      → BoundedLoop h k (document_command h k r x s)
  document_command-Bounded cancel s b = map-Bounded asked_to_cancel (λ _. refl) s.active_documents b
  document_command-Bounded (cancel_document_job job_id) s b =
      mark_one-Bounded asked_to_cancel job_id s (λ _. refl) b
  document_command-Bounded (pause_document_job job_id) s b =
      mark_one-Bounded asked_to_pause job_id s (λ _. refl) b
  document_command-Bounded (translate_document_job job_id o) s b =
      translate_job-Bounded job_id o s b
  document_command-Bounded (translate_document_job_with_routing job_id o routing_profile_id) s b =
      translate_job_with_routing-Bounded job_id o routing_profile_id s b
  document_command-Bounded (resume_document_job job_id) s b = resume_job-Bounded job_id false s b
  document_command-Bounded (retry_document_job job_id) s b = resume_job-Bounded job_id true s b
  document_command-Bounded shutdown s b = map-Bounded asked_to_stop (λ _. refl) s.active_documents b
  document_command-Bounded (connect p) s b = tell-Bounded h k (provider_rejected p _) s b
  document_command-Bounded (test_connection p) s b =
      tell-Bounded h k (connection_test_rejected (d.id p) _) s b
  document_command-Bounded channel_closed s b = b
  document_command-Bounded text_event s b = tell-Bounded h k (operation_failed _) s b
  document_command-Bounded other_command s b = tell-Bounded h k (document_job_action_rejected _) s b

  document_step-Bounded :
      (x : DocumentStep d) (s : DocumentLoop d c h k)
      → BoundedLoop h k s
      → BoundedLoop h k (document_step h k r x s)
  unfolding document_step set_document_cancellations
  document_step-Bounded (event job_id i e) s b = document_event-Bounded h k job_id i e s b
  document_step-Bounded (stream_ended job_id) s b = document_stream_ended-Bounded h k job_id s b
  document_step-Bounded (command x) s b = document_command-Bounded x s b

  unfoldable pub document_steps :
      List (DocumentStep d) → DocumentLoop d c h k → DocumentLoop d c h k
  document_steps [] s = s
  document_steps (x ∷ xs) s = document_steps xs (document_step h k r x s)

  -- Whatever commands, events of operations and shutdowns come, in whatever order: if at most four
  -- document jobs are translated and none twice, that stays so.
  pub document_steps-Bounded :
      (xs : List (DocumentStep d)) (s : DocumentLoop d c h k)
      → BoundedLoop h k s
      → BoundedLoop h k (document_steps xs s)
  unfolding document_steps
  document_steps-Bounded [] s b = b
  document_steps-Bounded (x ∷ xs) s b =
      document_steps-Bounded xs (document_step h k r x s) (document_step-Bounded x s b)
