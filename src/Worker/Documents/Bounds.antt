-- ===== src/Worker/Documents/Bounds.antt =====
-- src/worker.rs, `run_worker`: how many document jobs are translated at a time, after the events of
-- their operations.
use linguamesh_linux.Domain.{Domain}
use linguamesh_linux.Worker.Storage.{Core, done, Outcome, failed, outcome_cases}
use linguamesh_linux.Worker.Host.{Host}
use linguamesh_linux.Worker.Documents.{
  ActiveDocumentTranslation, get_document, activate_document_translation, remove_document,
  DocumentCore,
}
use linguamesh_linux.Prelude.Text.{Text}
use linguamesh_linux.Prelude.{
  ◌≡◌, some, ◌∷◌, subst, sym, if_cases, refl, Bool, not, ◌&&◌, ℕ, option_cases, ◌==◌,
}
use linguamesh_linux.Worker.Documents.Jobs.{Bounded, get_document-key}
use linguamesh_linux.Worker.Documents.Loop.{
  DocumentLoop, DocumentEvent, tell, send_or_stop, activate_in, segment_completed, segment_failed,
  segment_ended, segment_event, with_storage, document_job_action_rejected, state_after,
  document_job_segment, paused_if_asked, document_job_updated, is_job_state, document_event,
  document_stream_ended, set_document_cancellations,
}
use linguamesh_linux.Worker.Relay.{push_text, is_terminal_event, is_completed_event}
use linguamesh_linux.Worker.Documents.MapBounds.{remove-Bounded, put_back-Bounded, activated}

module _ {d : Domain} {c : Core d} (h : Host d c) (k : DocumentCore d c) where
  abbrev pub BoundedLoop : DocumentLoop d c h k → Type 0
  BoundedLoop s = Bounded s.active_documents

  pub tell-Bounded :
      (e : DocumentEvent d c k) (s : DocumentLoop d c h k)
      → BoundedLoop s
      → BoundedLoop (tell h k e s)
  tell-Bounded e s b = if_cases BoundedLoop s.is_closed (λ _. b) (λ _. b)

  send-Bounded :
      (e : DocumentEvent d c k) (s : DocumentLoop d c h k)
      → BoundedLoop s
      → BoundedLoop (send_or_stop h k e s)
  send-Bounded e s b = if_cases BoundedLoop s.is_closed (λ _. b) (λ _. tell-Bounded e s b)

  send-active_documents :
      (e : DocumentEvent d c k) (s : DocumentLoop d c h k)
      → (send_or_stop h k e s).active_documents ≡ s.active_documents
  send-active_documents e s =
      let P = λ (t : DocumentLoop d c h k). t.active_documents ≡ s.active_documents in
      if_cases P s.is_closed (λ _. refl) (λ _. if_cases P s.is_closed (λ _. refl) (λ _. refl))

  pub activate_in-Bounded :
      (o : Outcome d (ActiveDocumentTranslation d c h)) (s : DocumentLoop d c h k)
      → BoundedLoop s
      → BoundedLoop (activate_in h k o s)
  activate_in-Bounded (failed e) s b = tell-Bounded (document_job_action_rejected e) s b
  activate_in-Bounded (done t) s b =
      outcome_cases BoundedLoop (activate_document_translation t s.active_documents)
        (λ e _. tell-Bounded (document_job_action_rejected e) s b)
        λ us f.
          let (few, new, same) = activated t s.active_documents us f in
          subst Bounded (sym same) (few, (new, b.1))

  segment_completed-Bounded :
      (t : ActiveDocumentTranslation d c h) (s : DocumentLoop d c h k)
      → BoundedLoop s
      → BoundedLoop (segment_completed h k t s)
  segment_completed-Bounded t s b =
      let update =
        with_storage h k (λ x. k.update_document_segment x t.job_id t.segment_index t.output)
          s.storage in
      outcome_cases BoundedLoop update.1
        (λ e _. tell-Bounded (document_job_action_rejected e) record s { storage = update.0 } b)
        λ stored _.
          let s' : DocumentLoop d c h k = record s { storage = update.0 } in
          let paused = paused_if_asked h k t stored s'.storage in
          let told =
            send_or_stop h k (document_job_updated paused.1) record s' { storage = paused.0 } in
          let told-Bounded =
            send-Bounded (document_job_updated paused.1) record s' { storage = paused.0 } b in
          if_cases BoundedLoop s.is_closed (λ _. told-Bounded)
            λ _.
              if_cases BoundedLoop
                (not (is_job_state h k (k.state paused.1) k.job_completed)
                  && not t.stop_after_active
                  && not t.pause_requested)
                (λ _. activate_in-Bounded _ told told-Bounded) (λ _. told-Bounded)

  segment_failed-Bounded :
      (t : ActiveDocumentTranslation d c h) (s : DocumentLoop d c h k)
      → BoundedLoop s
      → BoundedLoop (segment_failed h k t s)
  segment_failed-Bounded t s b =
      let update =
        with_storage h k (λ x. k.set_document_job_state x t.job_id (state_after h k t)) s.storage in
      outcome_cases BoundedLoop update.1
        (λ e _. tell-Bounded (document_job_action_rejected e) record s { storage = update.0 } b)
        λ snapshot _. tell-Bounded (document_job_updated snapshot) record s { storage = update.0 } b

  segment_ended-Bounded :
      (completed : Bool) (t : ActiveDocumentTranslation d c h) (s : DocumentLoop d c h k)
      → BoundedLoop s
      → BoundedLoop (segment_ended h k completed t s)
  segment_ended-Bounded completed t s b =
      if_cases BoundedLoop completed (λ _. segment_completed-Bounded t s b)
        λ _. if_cases BoundedLoop t.stop_after_active (λ _. b) λ _. segment_failed-Bounded t s b

  segment_event-Bounded :
      (t : ActiveDocumentTranslation d c h) (e : d.Event) (s : DocumentLoop d c h k)
      → get_document t.job_id s.active_documents ≡ some t
      → BoundedLoop s
      → BoundedLoop (segment_event h k t e s)
  segment_event-Bounded running e s found b =
      let t : ActiveDocumentTranslation d c h = record running {
        output = push_text running.output (d.body e);
      } in
      let left : DocumentLoop d c h k = record s {
        active_documents = remove_document running.job_id s.active_documents;
      } in
      let told = send_or_stop h k (document_job_segment t.job_id t.segment_index e) left in
      let told-Bounded =
        send-Bounded (document_job_segment t.job_id t.segment_index e) left
          (remove-Bounded running.job_id s.active_documents b) in
      if_cases BoundedLoop told.shutting_down (λ _. told-Bounded)
        λ _.
          if_cases BoundedLoop (is_terminal_event (d.body e))
            (λ _. segment_ended-Bounded (is_completed_event (d.body e)) t told told-Bounded)
            λ _.
              subst (λ ts. Bounded (t ∷ ts))
                (sym (send-active_documents (document_job_segment t.job_id t.segment_index e) left))
                (put_back-Bounded running.job_id s.active_documents running t found refl b)

  pub document_event-Bounded :
      (job_id : Text) (segment_index : ℕ) (e : d.Event) (s : DocumentLoop d c h k)
      → BoundedLoop s
      → BoundedLoop (document_event h k job_id segment_index e s)
  unfolding document_event set_document_cancellations
  document_event-Bounded job_id segment_index e s b =
      option_cases BoundedLoop (get_document job_id s.active_documents) (λ _. b)
        λ t found.
          let key = get_document-key job_id s.active_documents t found in
          if_cases BoundedLoop (not (t.segment_index == segment_index))
            (λ _. put_back-Bounded job_id s.active_documents t t found key b)
            λ _.
              segment_event-Bounded t e s
                (subst (λ x. get_document x s.active_documents ≡ some t) (sym key) found) b

  pub document_stream_ended-Bounded :
      (job_id : Text) (s : DocumentLoop d c h k)
      → BoundedLoop s
      → BoundedLoop (document_stream_ended h k job_id s)
  unfolding document_stream_ended set_document_cancellations
  document_stream_ended-Bounded job_id s b =
      let left : DocumentLoop d c h k = record s {
        active_documents = remove_document job_id s.active_documents;
      } in
      let left-Bounded = remove-Bounded job_id s.active_documents b in
      option_cases BoundedLoop (get_document job_id s.active_documents) (λ _. b)
        λ t _.
          if_cases BoundedLoop t.stop_after_active (λ _. left-Bounded)
            λ _. tell-Bounded (document_job_action_rejected _) left left-Bounded
