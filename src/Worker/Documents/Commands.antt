-- ===== src/Worker/Documents/Commands.antt =====
use linguamesh_linux.Domain.{internal, Domain, invalid_configuration}
use linguamesh_linux.Prelude.Text.{Text, codes}
use linguamesh_linux.Worker.Storage.{Core, Outcome, failed, done}
use linguamesh_linux.Worker.Documents.{
  DocumentTranslationOptions, ActiveDocumentTranslation, DocumentCore, get_document,
  ensure_document_job_capacity, has_job,
}
use linguamesh_linux.Worker.Host.{Host}
use linguamesh_linux.Prelude.{
  ℕ, List, true, ◌∷◌, Bool, map, some, false, if◌then◌else◌, ◌++◌, none, [],
}
use linguamesh_linux.Worker.Documents.Routed.{
  RoutingCore, RoutedDocumentStart, start_routed_document_job_translation,
}
use linguamesh_linux.Worker.Documents.Resumed.{
  ResumedDocumentStart, plain, routed, start_resumable_document_job_translation,
}
use linguamesh_linux.Worker.Documents.Loop.{
  DocumentLoop, activate_in, document_event, tell, document_stream_ended, reject_action,
  provider_rejected, set_document_cancellations, with_storage, connection_test_rejected,
  routing_decision_selected, storage_unavailable,
}
use linguamesh_linux.Worker.Documents.Start.{start_plain_document_job_translation}
use linguamesh_linux.Worker.Documents.Loop.{operation_failed}

-- src/worker.rs, `run_worker`: the commands while document jobs are translated, and the steps of that
-- part of the loop.

-- What comes in: the commands, the shutdown, the end of the channel of events, and an event of a
-- text translation, which is none of this part's.
pub data DocumentCommand (d : Domain) : Type 0 where
  cancel : DocumentCommand d
  cancel_document_job : Text → DocumentCommand d
  pause_document_job : Text → DocumentCommand d
  translate_document_job : Text → DocumentTranslationOptions d → DocumentCommand d
  translate_document_job_with_routing :
      Text → DocumentTranslationOptions d → Text → DocumentCommand d
  resume_document_job : Text → DocumentCommand d
  retry_document_job : Text → DocumentCommand d
  shutdown : DocumentCommand d
  connect : d.Profile → DocumentCommand d
  test_connection : d.Profile → DocumentCommand d
  other_command : DocumentCommand d
  channel_closed : DocumentCommand d
  text_event : DocumentCommand d

-- One of these, or a `DocumentTaskEvent`.
pub data DocumentStep (d : Domain) : Type 0 where
  command : DocumentCommand d → DocumentStep d
  event : Text → ℕ → d.Event → DocumentStep d
  stream_ended : Text → DocumentStep d

module _ {d : Domain} {c : Core d} {h : Host d c} where
  -- `HashMap::get_mut`.
  unfoldable pub modify_document :
      Text
      → (ActiveDocumentTranslation d c h → ActiveDocumentTranslation d c h)
      → List (ActiveDocumentTranslation d c h)
      → List (ActiveDocumentTranslation d c h)
  modify_document job_id f [] = []
  modify_document job_id f (t ∷ ts) =
      let rest = modify_document job_id f ts in (if has_job job_id t then f t else t) ∷ rest

  abbrev pub asked_to_cancel : ActiveDocumentTranslation d c h → ActiveDocumentTranslation d c h
  asked_to_cancel t = record t { cancel_requested = true }

  abbrev pub asked_to_pause : ActiveDocumentTranslation d c h → ActiveDocumentTranslation d c h
  asked_to_pause t = record t { pause_requested = true }

  abbrev pub asked_to_stop : ActiveDocumentTranslation d c h → ActiveDocumentTranslation d c h
  asked_to_stop t = record t { stop_after_active = true }

module _ {d : Domain} {c : Core d} (h : Host d c) (k : DocumentCore d c) (r : RoutingCore d c) where
  abbrev invalid_action : Text → d.TranslationError
  invalid_action message = d.error_new invalid_configuration message

  -- Every running job is marked, and its operation cancelled.
  abbrev pub mark_all :
      (ActiveDocumentTranslation d c h → ActiveDocumentTranslation d c h)
      → DocumentLoop d c h k
      → DocumentLoop d c h k
  mark_all f s = record s {
    active_documents = map f s.active_documents;
    cancelled =
        map (λ (t : ActiveDocumentTranslation d c h). t.operation) s.active_documents
        ++ s.cancelled;
  }

  -- One running job is marked, and its operation cancelled.
  abbrev pub mark_one :
      (ActiveDocumentTranslation d c h → ActiveDocumentTranslation d c h)
      → Text
      → DocumentLoop d c h k
      → DocumentLoop d c h k
  mark_one f job_id s = elim (get_document job_id s.active_documents) [
    | none ↦
        reject_action h k
          (invalid_action (codes "The requested document job is not currently translating.")) s
    | some t ↦ record s {
      active_documents = modify_document job_id f s.active_documents;
      cancelled = t.operation ∷ s.cancelled;
    }
  ]

  unfoldable pub translate_job :
      Text → DocumentTranslationOptions d → DocumentLoop d c h k → DocumentLoop d c h k
  translate_job job_id o s = elim (ensure_document_job_capacity s.active_documents job_id) [
    | failed e ↦ reject_action h k e s
    | done _ ↦
        let (after, outcome) =
          with_storage h k
            (λ x.
              start_plain_document_job_translation h k x s.manager s.active_profile s.selected_model
                job_id o)
            s.storage in
        activate_in h k outcome record s { storage = after }
  ]

  -- A routed job keeps its manager.
  abbrev pub activate_routed :
      RoutedDocumentStart d c h → DocumentLoop d c h k → DocumentLoop d c h k
  activate_routed start s =
      activate_in h k (done record start.translation { provider_manager = some start.manager }) s

  unfoldable pub translate_job_with_routing :
      Text → DocumentTranslationOptions d → Text → DocumentLoop d c h k → DocumentLoop d c h k
  translate_job_with_routing job_id o routing_profile_id s =
      elim (ensure_document_job_capacity s.active_documents job_id) [
        | failed e ↦ reject_action h k e s
        | done _ ↦ elim s.storage [
          | none ↦ reject_action h k (storage_unavailable h k) s
          | some x ↦
              let (w, (after, outcome)) =
                start_routed_document_job_translation h k r s.world x job_id o routing_profile_id
                  false in
              let s' = record s { world = w; storage = some after } in
              elim outcome [
                | failed e ↦ reject_action h k e s'
                | done start ↦ activate_routed start (
                    tell h k
                      (routing_decision_selected routing_profile_id start.provider_id start.model_id
                        start.eligible_count start.rejected_count 0 start.decision_details)
                      s')
              ]
        ]
      ]

  abbrev pub activate_resumed :
      Outcome d (ResumedDocumentStart d c h) → DocumentLoop d c h k → DocumentLoop d c h k
  activate_resumed (failed e) s = reject_action h k e s
  activate_resumed (done (plain t)) s = activate_in h k (done t) s
  activate_resumed (done (routed start)) s = activate_routed start s

  abbrev pub resume_manager : DocumentLoop d c h k → c.Manager
  resume_manager s = elim s.routing_manager [ some manager ↦ manager | none ↦ s.manager ]

  unfoldable pub resume_job : Text → Bool → DocumentLoop d c h k → DocumentLoop d c h k
  resume_job job_id retry s = elim (ensure_document_job_capacity s.active_documents job_id) [
    | failed e ↦ reject_action h k e s
    | done _ ↦ elim s.storage [
      | none ↦ reject_action h k (storage_unavailable h k) s
      | some x ↦
          let (w, (after, outcome)) =
            start_resumable_document_job_translation h k r s.world x (resume_manager s)
              s.active_profile s.selected_model job_id retry in
          activate_resumed outcome record s { world = w; storage = some after }
    ]
  ]

  -- A command, before `set_document_cancellations`.
  abbrev pub document_command : DocumentCommand d → DocumentLoop d c h k → DocumentLoop d c h k
  document_command cancel s = mark_all asked_to_cancel s
  document_command (cancel_document_job job_id) s = mark_one asked_to_cancel job_id s
  document_command (pause_document_job job_id) s = mark_one asked_to_pause job_id s
  document_command (translate_document_job job_id o) s = translate_job job_id o s
  document_command (translate_document_job_with_routing job_id o routing_profile_id) s =
      translate_job_with_routing job_id o routing_profile_id s
  document_command (resume_document_job job_id) s = resume_job job_id false s
  document_command (retry_document_job job_id) s = resume_job job_id true s
  document_command shutdown s = mark_all asked_to_stop s
  document_command (connect p) s =
      tell h k
        (provider_rejected p
          (invalid_action (codes "A provider cannot be changed while document jobs are running.")))
        s
  document_command (test_connection p) s =
      tell h k
        (connection_test_rejected (d.id p)
          (invalid_action (codes "A connection test cannot run while document jobs are running.")))
        s
  document_command channel_closed s = record s { shutting_down = true }
  document_command text_event s =
      tell h k
        (operation_failed (
          d.error_new internal
            (codes "A text event was received while document jobs were active.")))
        s
  document_command other_command s =
      reject_action h k
        (invalid_action
          (codes "A document job command cannot change unrelated active document jobs."))
        s

  unfoldable pub document_step : DocumentStep d → DocumentLoop d c h k → DocumentLoop d c h k
  unfolding translate_job translate_job_with_routing resume_job
  document_step (event job_id segment_index e) s = document_event h k job_id segment_index e s
  document_step (stream_ended job_id) s = document_stream_ended h k job_id s
  document_step (command x) s = set_document_cancellations h k (document_command x s)
