-- ===== src/Worker/Documents/Asked.antt =====
use linguamesh_linux.Domain.{Domain, invalid_configuration}
use linguamesh_linux.Worker.Storage.{Core, outcome_cases}
use linguamesh_linux.Worker.Host.{Host}
use linguamesh_linux.Worker.Documents.{
  get_document, DocumentCore, ActiveDocumentTranslation, remove_document,
}
use linguamesh_linux.Worker.Documents.Commands.{
  modify_document, mark_one, document_step, command, pause_document_job, asked_to_pause,
}
use linguamesh_linux.Worker.Documents.Routed.{RoutingCore}
use linguamesh_linux.Prelude.Text.{Text, Text-discrete, codes}
use linguamesh_linux.Prelude.{
  ℕ, List, ◌≡◌, some, arith, ap, if◌then◌else◌, does, true, ◌∙◌, [], none, subst, Bool, refl,
  if_cases, ◌&&◌, not,
}
use linguamesh_linux.Worker.Documents.Loop.{
  DocumentLoop, set_document_cancellations, document_event, reject_action, DocumentEvent,
  send_or_stop, segment_completed, segment_ended, with_storage, document_job_action_rejected,
  paused_if_asked, document_job_updated, is_job_state,
}
use linguamesh_linux.Worker.Documents.MapBounds.{KeepsJob}
use linguamesh_linux.Worker.Documents.Segments.{
  RunsAs, told_segment, extended_by, document_event-runs,
}
-- src/worker.rs, `run_worker`: the document jobs that were asked to pause or to cancel, when their
-- segment ends.
use linguamesh_linux.Prelude.{◌∷◌, sym}
use mathlib.Core.Option.{some-injective}
use linguamesh_linux.Worker.Relay.{is_terminal_event, is_completed_event}
use linguamesh_linux.Worker.Documents.Jobs.{get-head, get-tail, get_document-key, get-remove}
use linguamesh_linux.Worker.Documents.Ended.{SameJobs, tell-SameJobs, segment_failed-parts}

module _ {d : Domain} {c : Core d} {h : Host d c} where
  get-modify :
      (x : Text) (f : ActiveDocumentTranslation d c h → ActiveDocumentTranslation d c h)
      (ts : List (ActiveDocumentTranslation d c h)) (t : ActiveDocumentTranslation d c h)
      → KeepsJob f
      → get_document x ts ≡ some t
      → get_document x (modify_document x f ts) ≡ some (f t)
  unfolding get_document modify_document
  get-modify x f [] t keeps e = absurd (ground arith)
  get-modify x f (u ∷ ts) t keeps e =
      elim (Text-discrete u.job_id x)
          as (λ b.
            (if does b then some u else get_document x ts) ≡ some t
            → get_document x ((if does b then f u else u) ∷ modify_document x f ts) ≡ some (f t)) [
              | yes p ↦ λ g.
                  get-head x (f u) (modify_document x f ts) (keeps u ∙ p)
                  ∙ ap (λ v. some (f v)) (some-injective u t g)
              | no n ↦ λ g. get-tail x u (modify_document x f ts) n ∙ get-modify x f ts t keeps g
            ]
        e

module _ {d : Domain} {c : Core d} (h : Host d c) (k : DocumentCore d c) (r : RoutingCore d c) where
  -- The state with a running job marked, and its operation cancelled.
  abbrev pub marked :
      Text
      → (ActiveDocumentTranslation d c h → ActiveDocumentTranslation d c h)
      → ActiveDocumentTranslation d c h
      → DocumentLoop d c h k
      → DocumentLoop d c h k
  marked x f t s = record s {
    active_documents = modify_document x f s.active_documents;
    cancelled = t.operation ∷ s.cancelled;
  }

  pub mark_one-running :
      (x : Text) (f : ActiveDocumentTranslation d c h → ActiveDocumentTranslation d c h)
      (t : ActiveDocumentTranslation d c h) (s : DocumentLoop d c h k)
      → get_document x s.active_documents ≡ some t
      → mark_one h k r f x s ≡ marked x f t s
  mark_one-running x f t s found =
      ap
        (λ o. elim o as (λ _. DocumentLoop d c h k) [
          | none ↦
              reject_action h k
                (d.error_new invalid_configuration
                  (codes "The requested document job is not currently translating."))
                s
          | some u ↦ marked x f u s
        ])
        found

  pub marked-Runs :
      (x : Text) (i : ℕ) (f : ActiveDocumentTranslation d c h → ActiveDocumentTranslation d c h)
      (t : ActiveDocumentTranslation d c h) (s : DocumentLoop d c h k)
      → KeepsJob f
      → (f t).segment_index ≡ t.segment_index
      → RunsAs h k x i t s
      → RunsAs h k x i (f t) (marked x f t s)
  marked-Runs x i f t s keeps same_index (found, same, open_, on) =
      (get-modify x f s.active_documents t keeps found, same_index ∙ same, open_, on)

  send-SameJobs :
      (w : DocumentEvent d c k) (s : DocumentLoop d c h k) → SameJobs h k s (send_or_stop h k w s)
  send-SameJobs w s = if_cases (SameJobs h k s) s.is_closed (λ _. refl) (λ _. tell-SameJobs h k w s)

  -- No next segment is started for a job that was asked to pause.
  paused-SameJobs :
      (t : ActiveDocumentTranslation d c h) (s : DocumentLoop d c h k)
      → t.pause_requested ≡ true
      → SameJobs h k s (segment_completed h k t s)
  paused-SameJobs t s pause =
      let update =
        with_storage h k (λ x. k.update_document_segment x t.job_id t.segment_index t.output)
          s.storage in
      let s' : DocumentLoop d c h k = record s { storage = update.0 } in
      outcome_cases (SameJobs h k s) update.1
        (λ e _. tell-SameJobs h k (document_job_action_rejected e) s')
        λ stored _.
          let paused = paused_if_asked h k t stored update.0 in
          let told-SameJobs =
            send-SameJobs (document_job_updated paused.1) record s' { storage = paused.0 } in
          if_cases (SameJobs h k s) s.is_closed (λ _. told-SameJobs)
            λ _.
              if_cases (SameJobs h k s)
                (not (is_job_state h k (k.state paused.1) k.job_completed)
                  && not t.stop_after_active
                  && not t.pause_requested)
                (λ f.
                  absurd (pausing (not (is_job_state h k (k.state paused.1) k.job_completed)) f))
                (λ _. told-SameJobs)
    where
      pausing : (b : Bool) → b && not t.stop_after_active && not t.pause_requested ≡ true → ⊥
      pausing b f = ground arith

  ended-SameJobs :
      (completed : Bool) (t : ActiveDocumentTranslation d c h) (s : DocumentLoop d c h k)
      → t.pause_requested ≡ true
      → SameJobs h k s (segment_ended h k completed t s)
  ended-SameJobs completed t s pause =
      if_cases (SameJobs h k s) completed (λ _. paused-SameJobs t s pause)
        λ _.
          if_cases (SameJobs h k s) t.stop_after_active (λ _. refl)
            (λ _. (segment_failed-parts h k t s).0)

  -- A pause is the end of the job's run: while a job runs on the segment `i` and the worker goes on,
  -- the command to pause it cancels its operation, and whatever event ends the segment then, also
  -- its completion, the job no longer runs.
  pub pause_document_job-ends :
      (x : Text) (i : ℕ) (t : ActiveDocumentTranslation d c h) (e : d.Event)
      (s : DocumentLoop d c h k)
      → RunsAs h k x i t s
      → is_terminal_event (d.body e) ≡ true
      → let paused = document_step h k r (command (pause_document_job x)) s in
        (paused.cancelled ≡ t.operation ∷ s.cancelled)
        × (get_document x (document_event h k x i e paused).active_documents ≡ none)
  unfolding document_step set_document_cancellations
  pause_document_job-ends x i t e s runs terminal =
      let t' = asked_to_pause t in
      let paused = set_document_cancellations h k (marked x asked_to_pause t s) in
      let told = told_segment h k t' e paused in
      let ended : document_event h k x i e paused
          ≡ set_document_cancellations h k
              (segment_ended h k (is_completed_event (d.body e)) (extended_by h k t' e) told) =
        document_event-runs h k x i t' e paused
          (marked-Runs x i asked_to_pause t s (λ _. refl) refl runs)
        ∙ rw terminal refl in
      let key = get_document-key x s.active_documents t runs.0 in
      let jobs : (document_event h k x i e paused).active_documents
          ≡ remove_document x paused.active_documents =
        ap (λ (v : DocumentLoop d c h k). v.active_documents) ended
        ∙ ended-SameJobs (is_completed_event (d.body e)) (extended_by h k t' e) told refl
        ∙ rw key refl in
      subst
        (λ (v : DocumentLoop d c h k).
          (v.cancelled ≡ t.operation ∷ s.cancelled)
          × (get_document x (document_event h k x i e v).active_documents ≡ none))
        (sym (ap (set_document_cancellations h k) (mark_one-running x asked_to_pause t s runs.0)))
        (
          refl,
          subst (λ ts. get_document x ts ≡ none) (sym jobs) (get-remove x paused.active_documents),
        )
