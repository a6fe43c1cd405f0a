-- ===== src/Worker/Documents/Cancelled.antt =====
use linguamesh_linux.Domain.{Domain, EventBody}
use linguamesh_linux.Worker.Storage.{Core, done}
use linguamesh_linux.Worker.Host.{Host}
use linguamesh_linux.Worker.Documents.{
  DocumentCore, ActiveDocumentTranslation, get_document, max_active_document_jobs, remove_document,
}
use linguamesh_linux.Worker.Documents.Segment.{begin_document_segment}
use linguamesh_linux.Worker.Documents.Routed.{RoutingCore}
use linguamesh_linux.Worker.Documents.Commands.{
  document_step, command, cancel_document_job, asked_to_cancel,
}
use linguamesh_linux.Worker.Documents.Loop.{
  set_document_cancellations, DocumentLoop, document_manager, next_options, document_event,
  document_job_updated,
}
use linguamesh_linux.Prelude.Text.{Text}
use linguamesh_linux.Prelude.{
  ℕ, Option, ◌≡◌, some, false, ◌≢◌, List, length, ◌≤◌, ◌<◌, arith, ◌||◌, ◌++◌, [],
}
-- src/worker.rs, `run_worker`: a document job that was asked to cancel, and whose segment completes
-- all the same.
use linguamesh_linux.Worker.Documents.Segments.{
  RunsAs, told_segment, document_event-runs, extended_by,
}
use linguamesh_linux.Worker.Documents.Bounds.{BoundedLoop}
use linguamesh_linux.Prelude.{◌∷◌, refl, ap, subst, sym, ◌∙◌, ◌≡◌, ◌≢◌}
use linguamesh_linux.Worker.Documents.Jobs.{
  length-remove_present, get_document-key, get-remove, get-head,
}
use linguamesh_linux.Worker.Documents.Asked.{marked, marked-Runs, mark_one-running}
use linguamesh_linux.Worker.Relay.{push_text}
use linguamesh_linux.Worker.Documents.MapBounds.{modify-Bounded}
use linguamesh_linux.Worker.Documents.Continued.{
  segment_completed-next, next_segment-activates, begin_document_segment-fresh,
}

module _ {d : Domain} {c : Core d} (h : Host d c) (k : DocumentCore d c) (r : RoutingCore d c) where
  -- A cancellation that comes while the segment completes does not end the job: a job runs on the
  -- segment `i`, the worker goes on with a store, within its bounds, and neither a pause nor a
  -- shutdown was asked for. The command to cancel the job cancels the operation of this segment. If
  -- the segment completes all the same, Core stores it and the job is not at its end, and the next
  -- segment begins, then the job runs on with that segment, and the request for cancellation is
  -- forgotten.
  pub cancel_document_job-continues :
      (x : Text) (i : ℕ) (t next : ActiveDocumentTranslation d c h) (e : d.Event)
      (usage : Option d.Usage) (snapshot : k.Snapshot) (st st' : c.Storage)
      (s : DocumentLoop d c h k)
      → RunsAs h k x i t s
      → BoundedLoop h k s
      → s.storage ≡ some st
      → t.pause_requested ≡ false
      → t.stop_after_active ≡ false
      → d.body e ≡ EventBody.completed usage
      → k.update_document_segment st t.job_id t.segment_index t.output ≡ (st', done snapshot)
      → k.state snapshot ≢ k.job_completed
      → begin_document_segment h k
          (document_manager h k t s)
          s.active_profile
          (some t.model_id)
          t.job_id
          (k.job snapshot)
          (next_options h k t)
        ≡ done next
      → let asked = document_step h k r (command (cancel_document_job x)) s in
        (asked.cancelled ≡ t.operation ∷ s.cancelled)
        × (get_document x (document_event h k x i e asked).active_documents
            ≡ some record next { provider_manager = t.provider_manager })
        × (next.cancel_requested ≡ false)
  unfolding document_step set_document_cancellations
  cancel_document_job-continues x i t next e usage snapshot st st' s runs bounded has pause stop b
        updated more began =
      let t' = asked_to_cancel t in
      let asked = set_document_cancellations h k (marked h k r x asked_to_cancel t s) in
      let runs' = marked-Runs h k r x i asked_to_cancel t s (λ _. refl) refl runs in
      let told = told_segment h k t' e asked in
      let same_output : push_text t.output (d.body e) ≡ t.output = rw b refl in
      let key = get_document-key x s.active_documents t runs.0 in
      let few : length (remove_document t.job_id asked.active_documents)
          < max_active_document_jobs =
        few_left asked.active_documents t'
          (subst (λ y. get_document y asked.active_documents ≡ some t') (sym key) runs'.0)
          (modify-Bounded x asked_to_cancel (λ _. refl) s.active_documents bounded).0 in
      let fresh =
        begin_document_segment-fresh h k (document_manager h k t s) s.active_profile
          (some t.model_id) t.job_id (k.job snapshot) (next_options h k t) next began in
      let new = get-remove t.job_id asked.active_documents in
      let after : DocumentLoop d c h k = record told {
        storage = some st';
        sent = told.sent ++ document_job_updated snapshot ∷ [];
      } in
      let ended : (document_event h k x i e asked).active_documents
          ≡ record next { provider_manager = t.provider_manager } ∷ told.active_documents =
        ap (λ (v : DocumentLoop d c h k). v.active_documents)
          (document_event-runs h k x i t' e asked runs'
            ∙ rw b refl
            ∙ ap
                (λ (v : DocumentLoop d c h k).
                  set_document_cancellations h k
                    record v { shutting_down = t.stop_after_active || v.shutting_down })
                (segment_completed-next h k (extended_by h k t' e) snapshot st st' told has runs.2
                    (ap (k.update_document_segment st t.job_id t.segment_index) same_output
                      ∙ updated)
                    more pause stop
                  ∙ next_segment-activates h k (extended_by h k t' e) next snapshot after began few
                      new)) in
      subst
        (λ (v : DocumentLoop d c h k).
          (v.cancelled ≡ t.operation ∷ s.cancelled)
          × (get_document x (document_event h k x i e v).active_documents
              ≡ some record next { provider_manager = t.provider_manager })
          × (next.cancel_requested ≡ false))
        (sym (
          ap (set_document_cancellations h k)
            (mark_one-running h k r x asked_to_cancel t s runs.0)))
        (
          refl,
          subst
              (λ ts. get_document x ts ≡ some record next { provider_manager = t.provider_manager })
              (sym ended)
              (get-head x record next { provider_manager = t.provider_manager }
                told.active_documents ((fresh).0 ∙ key)),
          (fresh).1,
        )
    where
      few_left :
          (ts : List (ActiveDocumentTranslation d c h)) (v : ActiveDocumentTranslation d c h)
          → get_document v.job_id ts ≡ some v
          → length ts ≤ max_active_document_jobs
          → length (remove_document v.job_id ts) < max_active_document_jobs
      few_left ts v found most = omega (arith, length-remove_present v.job_id ts v found, most)
