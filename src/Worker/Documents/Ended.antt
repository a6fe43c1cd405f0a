-- ===== src/Worker/Documents/Ended.antt =====
use linguamesh_linux.Domain.{Domain}
use linguamesh_linux.Worker.Storage.{Core, outcome_cases}
use linguamesh_linux.Worker.Host.{Host}
use linguamesh_linux.Worker.Documents.{
  DocumentCore, ActiveDocumentTranslation, get_document, remove_document,
}
use linguamesh_linux.Worker.Documents.Loop.{
  DocumentLoop, DocumentEvent, set_document_cancellations, state_after, tell, segment_failed,
  with_storage, document_job_action_rejected, document_job_updated, document_event, segment_ended,
}
use linguamesh_linux.Prelude.Text.{Text}
use linguamesh_linux.Prelude.{
  ◌≡◌, true, if_cases, ℕ, false, refl, some, none, ◌≢◌, ◌∙◌, ap, Option, subst, sym,
}
use linguamesh_linux.Worker.Documents.Segments.{RunsAs, told_segment, document_event-runs}
use linguamesh_linux.Worker.Documents.Stored.{tell-storage}
use linguamesh_linux.Worker.Relay.{is_terminal_event, is_completed_event}
use linguamesh_linux.Worker.Documents.Jobs.{get_document-key, get-remove, get-remove_other}
use linguamesh_linux.Worker.Documents.Segments.{extended_by}

-- src/worker.rs, `run_worker`: the end of a segment of a document job that was not translated, and
-- the jobs that were asked to pause.

module _ {d : Domain} {c : Core d} (h : Host d c) (k : DocumentCore d c) where
  -- The state of a job whose segment ended without its translation: paused where that was asked for,
  -- else cancelled where that was asked for, else failed.
  abbrev pub EndsIn : ActiveDocumentTranslation d c h → k.JobState → Type 0
  EndsIn t v =
      (t.pause_requested ≡ true → v ≡ k.job_paused)
      × (t.pause_requested ≡ false → t.cancel_requested ≡ true → v ≡ k.job_cancelled)
      × (t.pause_requested ≡ false → t.cancel_requested ≡ false → v ≡ k.job_failed)

  state_after-EndsIn : (t : ActiveDocumentTranslation d c h) → EndsIn t (state_after h k t)
  state_after-EndsIn t = (λ e. rw e refl, λ e f. rw (e, f) refl, λ e f. rw (e, f) refl)

  -- What counts here of two states: the map of the running jobs.
  abbrev pub SameJobs : DocumentLoop d c h k → DocumentLoop d c h k → Type 0
  SameJobs s v = v.active_documents ≡ s.active_documents

  pub tell-SameJobs :
      (w : DocumentEvent d c k) (s : DocumentLoop d c h k) → SameJobs s (tell h k w s)
  tell-SameJobs w s = if_cases (SameJobs s) s.is_closed (λ _. refl) (λ _. refl)

  pub segment_failed-parts :
      (t : ActiveDocumentTranslation d c h) (s : DocumentLoop d c h k)
      → SameJobs s (segment_failed h k t s)
        × ((segment_failed h k t s).storage
            ≡ (with_storage h k
                (λ x. k.set_document_job_state x t.job_id (state_after h k t))
                s.storage).0)
  segment_failed-parts t s =
      let update =
        with_storage h k (λ x. k.set_document_job_state x t.job_id (state_after h k t)) s.storage in
      let s' : DocumentLoop d c h k = record s { storage = update.0 } in
      outcome_cases (λ (v : DocumentLoop d c h k). SameJobs s v × (v.storage ≡ update.0)) update.1
        (λ e _. (
          tell-SameJobs (document_job_action_rejected e) s',
          tell-storage h k (document_job_action_rejected e) s',
        ))
        λ snapshot _. (
          tell-SameJobs (document_job_updated snapshot) s',
          tell-storage h k (document_job_updated snapshot) s',
        )

  -- A segment that ends without a translation, by a failure or a cancellation, while its job runs
  -- with the entry `t`, the worker goes on with a store, and no shutdown was asked for: the job no
  -- longer runs, every other job runs as before, and the job's state in the store is paused if a
  -- pause was asked for, else cancelled if a cancellation was asked for, else failed.
  pub document_event-ended :
      (x : Text) (i : ℕ) (t : ActiveDocumentTranslation d c h) (e : d.Event) (st : c.Storage)
      (s : DocumentLoop d c h k)
      → RunsAs h k x i t s
      → s.storage ≡ some st
      → t.stop_after_active ≡ false
      → is_terminal_event (d.body e) ≡ true
      → is_completed_event (d.body e) ≡ false
      → let after = document_event h k x i e s in
        (get_document x after.active_documents ≡ none)
        × ((y : Text)
            → x ≢ y
            → get_document y after.active_documents ≡ get_document y s.active_documents)
        × ((v : k.JobState) × EndsIn t v
            × (after.storage ≡ some (k.set_document_job_state st x v).0))
  unfolding set_document_cancellations
  document_event-ended x i t e st s runs has stop terminal failing =
      let key = get_document-key x s.active_documents t runs.0 in
      let told = told_segment h k t e s in
      let (failed_jobs, failed_stored) = segment_failed-parts (extended_by h k t e) told in
      let ended : document_event h k x i e s
          ≡ set_document_cancellations h k (segment_ended h k false (extended_by h k t e) told) =
        document_event-runs h k x i t e s runs ∙ rw (terminal, failing) refl in
      let P = λ (v : DocumentLoop d c h k).
        SameJobs told v
        × (v.storage ≡ some (k.set_document_job_state st x (state_after h k t)).0) in
      let (jobs, stored) =
        if_cases P t.stop_after_active {x = told}
          {y = segment_failed h k (extended_by h k t e) told} (λ f. absurd (cc (stop, f)))
          (λ _. (
            failed_jobs,
            failed_stored
                ∙ ap
                    (λ (o : Option c.Storage).
                      (with_storage h k
                        (λ u. k.set_document_job_state u t.job_id (state_after h k t)) o).0)
                    has
                ∙ rw key refl,
          )) in
      let jobs' : (document_event h k x i e s).active_documents
          ≡ remove_document x s.active_documents =
        ap (λ (v : DocumentLoop d c h k). v.active_documents) ended ∙ jobs ∙ rw key refl in
      (
        subst (λ ts. get_document x ts ≡ none) (sym jobs') (get-remove x s.active_documents),
        λ y n. ap (get_document y) jobs' ∙ get-remove_other x y s.active_documents n,
        (
          state_after h k t,
          state_after-EndsIn t,
          ap (λ (v : DocumentLoop d c h k). v.storage) ended ∙ stored,
        ),
      )
