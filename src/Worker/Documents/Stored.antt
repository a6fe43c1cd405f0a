-- ===== src/Worker/Documents/Stored.antt =====
-- src/worker.rs, `run_worker`: what the store holds of a segment after its translation.
use linguamesh_linux.Domain.{Domain, EventBody}
use linguamesh_linux.Worker.Storage.{Core, Outcome, failed, done, outcome_cases}
use linguamesh_linux.Worker.Host.{Host}
use linguamesh_linux.Worker.Documents.{
  DocumentCore, ActiveDocumentTranslation, activate_document_translation,
}
use linguamesh_linux.Prelude.Text.{Text}
use linguamesh_linux.Prelude.{
  refl, ap, List, ℕ, ◌≡◌, some, false, arith, ◌++◌, if_cases, ap, not, ◌∙◌, Option, ◌&&◌, true,
}
use linguamesh_linux.Worker.Documents.Loop.{
  document_event, set_document_cancellations, DocumentLoop, DocumentEvent, send_or_stop,
  segment_ended, segment_completed, with_storage, tell, activate_in, paused_if_asked,
  document_job_action_rejected, is_job_state, document_job_updated,
}
use linguamesh_linux.Model.Stream.{texts}
use linguamesh_linux.Worker.Documents.Jobs.{get_document-key}
use linguamesh_linux.Worker.Documents.Segments.{
  RunsAs, AllText, document_events, text_events-Runs, extended_by, told_segment,
  document_event-runs,
}

module _ {d : Domain} {c : Core d} (h : Host d c) (k : DocumentCore d c) where
  pub tell-storage :
      (w : DocumentEvent d c k) (s : DocumentLoop d c h k) → (tell h k w s).storage ≡ s.storage
  tell-storage w s =
      if_cases (λ (v : DocumentLoop d c h k). v.storage ≡ s.storage) s.is_closed (λ _. refl)
        (λ _. refl)

  send-storage :
      (w : DocumentEvent d c k) (s : DocumentLoop d c h k)
      → (send_or_stop h k w s).storage ≡ s.storage
  send-storage w s =
      if_cases (λ (v : DocumentLoop d c h k). v.storage ≡ s.storage) s.is_closed (λ _. refl)
        (λ _. tell-storage w s)

  activate_in-storage :
      (o : Outcome d (ActiveDocumentTranslation d c h)) (s : DocumentLoop d c h k)
      → (activate_in h k o s).storage ≡ s.storage
  activate_in-storage (failed e) s = tell-storage (document_job_action_rejected e) s
  activate_in-storage (done t) s =
      outcome_cases (λ (v : DocumentLoop d c h k). v.storage ≡ s.storage)
        (activate_document_translation t s.active_documents)
        (λ e _. tell-storage (document_job_action_rejected e) s) (λ _ _. refl)

  -- The store after the last segment event, where no pause was asked for.
  segment_completed-storage :
      (t : ActiveDocumentTranslation d c h) (s : DocumentLoop d c h k)
      → t.pause_requested ≡ false
      → (segment_completed h k t s).storage
        ≡ (with_storage h k
            (λ x. k.update_document_segment x t.job_id t.segment_index t.output)
            s.storage).0
  segment_completed-storage t s pause =
      let update =
        with_storage h k (λ x. k.update_document_segment x t.job_id t.segment_index t.output)
          s.storage in
      let P = λ (v : DocumentLoop d c h k). v.storage ≡ update.0 in
      let s' : DocumentLoop d c h k = record s { storage = update.0 } in
      outcome_cases P update.1 (λ e _. tell-storage (document_job_action_rejected e) s')
        λ stored _.
          let paused = paused_if_asked h k t stored update.0 in
          let told =
            send_or_stop h k (document_job_updated paused.1) record s' { storage = paused.0 } in
          let kept : told.storage ≡ update.0 =
            send-storage (document_job_updated paused.1) record s' { storage = paused.0 }
            ∙ unpaused stored update.0 in
          if_cases P s.is_closed (λ _. kept)
            λ _.
              if_cases P
                (not (is_job_state h k (k.state paused.1) k.job_completed)
                  && not t.stop_after_active
                  && not t.pause_requested)
                (λ _. activate_in-storage _ told ∙ kept) (λ _. kept)
    where
      unpaused :
          (stored : k.Snapshot) (storage : Option c.Storage)
          → (paused_if_asked h k t stored storage).0 ≡ storage
      unpaused stored storage =
          if_cases (λ (v : Option c.Storage × k.Snapshot). v.0 ≡ storage)
            (t.pause_requested && not (is_job_state h k (k.state stored) k.job_completed))
            (λ f. absurd (ground arith)) (λ _. refl)

  -- The text of a segment is stored as the provider sent it: a job runs with its operation on the
  -- segment `i`, the worker goes on with a store, and no pause was asked for. Its operation sends
  -- texts and then completes. Then the store is the one in which Core has put, for the job and the
  -- segment `i`, the output so far with all these texts in order.
  pub document_events-stored :
      (x : Text) (i : ℕ) (t : ActiveDocumentTranslation d c h) (es : List d.Event) (e : d.Event)
      (usage : Option d.Usage) (st : c.Storage) (s : DocumentLoop d c h k)
      → RunsAs h k x i t s
      → s.storage ≡ some st
      → t.pause_requested ≡ false
      → AllText d es
      → d.body e ≡ EventBody.completed usage
      → (document_event h k x i e (document_events h k x i es s)).storage
        ≡ some (k.update_document_segment st x i (t.output ++ texts d es)).0
  unfolding set_document_cancellations
  document_events-stored x i t es e usage st s runs has pause all b =
      let (runs', kept) = text_events-Runs h k x i t es s runs all in
      let t' : ActiveDocumentTranslation d c h = record t { output = t.output ++ texts d es } in
      let s' = document_events h k x i es s in
      let ended : document_event h k x i e s'
          ≡ set_document_cancellations h k
              (segment_ended h k true (extended_by h k t' e) (told_segment h k t' e s')) =
        document_event-runs h k x i t' e s' runs' ∙ rw b refl in
      ap (λ (v : DocumentLoop d c h k). v.storage) ended
      ∙ segment_completed-storage (extended_by h k t' e) (told_segment h k t' e s') pause
      ∙ ap
          (λ (o : Option c.Storage).
            (with_storage h k
              (λ v.
                k.update_document_segment v t.job_id t.segment_index (extended_by h k t' e).output)
              o).0)
          (kept ∙ has)
      ∙ rw (b, get_document-key x s.active_documents t runs.0, runs.1) refl
