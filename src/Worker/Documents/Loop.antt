-- ===== src/Worker/Documents/Loop.antt =====
use linguamesh_linux.Domain.{Domain, persistence, internal}
use linguamesh_linux.Worker.Storage.{Core, Outcome, failed, done}
use linguamesh_linux.Worker.Documents.{
  DocumentCore, ActiveDocumentTranslation, DocumentTranslationOptions, get_document,
  activate_document_translation, remove_document,
}
use linguamesh_linux.Worker.Documents.Segment.{begin_document_segment}
use linguamesh_linux.Worker.Host.{Host}
use linguamesh_linux.Prelude.Text.{Text, codes}
use linguamesh_linux.Prelude.{
  Option, Bool, if◌then◌else◌, ℕ, List, true, does, some, not, is_empty, ◌++◌, ◌&&◌, ◌||◌, none,
  ◌∷◌, [], map, ◌==◌,
}
use linguamesh_linux.Worker.Relay.{push_text, is_terminal_event, is_completed_event}
use linguamesh_linux.Worker.Documents.Routed.{RoutingDecisionDetails}

-- src/worker.rs, `run_worker`: the part of the loop that runs while document jobs are translated.

-- The events of the worker that this part sends.
pub data DocumentEvent (d : Domain) (c : Core d) (k : DocumentCore d c) : Type 0 where
  document_job_action_rejected : d.TranslationError → DocumentEvent d c k
  document_job_segment : Text → ℕ → d.Event → DocumentEvent d c k
  document_job_updated : k.Snapshot → DocumentEvent d c k
  provider_rejected : d.Profile → d.TranslationError → DocumentEvent d c k
  connection_test_rejected : d.ProfileId → d.TranslationError → DocumentEvent d c k
  operation_failed : d.TranslationError → DocumentEvent d c k
  routing_decision_selected :
      Text → Text → Text → ℕ → ℕ → ℕ → RoutingDecisionDetails → DocumentEvent d c k

-- The variables of the loop: `cancelled` are the operations whose cancellation was called,
-- `active_cancellation` is `ActiveCancellation::DocumentJobs`, and `is_closed` tells that the
-- receiver of the events is gone.
pub record DocumentLoop (d : Domain) (c : Core d) (h : Host d c) (k : DocumentCore d c)
    : Type 0 where
  pub world : h.World
  pub storage : Option c.Storage
  pub manager : c.Manager
  pub routing_manager : Option c.Manager
  pub active_profile : Option d.Profile
  pub selected_model : Option Text
  pub active_documents : List (ActiveDocumentTranslation d c h)
  pub active_cancellation : Option (List h.Operation)
  pub cancelled : List h.Operation
  pub shutting_down : Bool
  pub is_closed : Bool
  pub sent : List (DocumentEvent d c k)

module _ {d : Domain} {c : Core d} (h : Host d c) (k : DocumentCore d c) where
  -- `let _ = events.send(..)`, and a send whose failure shuts the worker down.
  abbrev pub tell : DocumentEvent d c k → DocumentLoop d c h k → DocumentLoop d c h k
  tell e s = if s.is_closed then s else record s { sent = s.sent ++ e ∷ [] }

  abbrev pub send_or_stop : DocumentEvent d c k → DocumentLoop d c h k → DocumentLoop d c h k
  send_or_stop e s = if s.is_closed then record s { shutting_down = true } else tell e s

  abbrev pub reject_action : d.TranslationError → DocumentLoop d c h k → DocumentLoop d c h k
  reject_action e s = tell (document_job_action_rejected e) s

  abbrev pub storage_unavailable : d.TranslationError
  storage_unavailable = d.error_new persistence (codes "Local document job storage is unavailable.")

  -- `storage.as_mut().ok_or_else(..).and_then(..)`.
  abbrev pub with_storage :
      {A : Type 0}
      → (c.Storage → c.Storage × Outcome d A)
      → Option c.Storage
      → Option c.Storage × Outcome d A
  with_storage f none = (none, failed storage_unavailable)
  with_storage f (some s) = let (after, outcome) = f s in (some after, outcome)

  abbrev pub is_job_state : k.JobState → k.JobState → Bool
  is_job_state a b = does (k.state_discrete a b)

  -- The map after the start of an operation, or the refusal.
  abbrev pub activate_in :
      Outcome d (ActiveDocumentTranslation d c h) → DocumentLoop d c h k → DocumentLoop d c h k
  activate_in (failed e) s = reject_action e s
  activate_in (done t) s = elim (activate_document_translation t s.active_documents) [
    | failed e ↦ reject_action e s
    | done active_documents ↦ record s { active_documents = active_documents }
  ]

  abbrev pub next_options : ActiveDocumentTranslation d c h → DocumentTranslationOptions d
  next_options t = record {
    source_locale = t.source_locale;
    target_locale = t.target_locale;
    glossary = t.glossary;
    quality_mode = t.quality_mode;
    translation_preset = t.translation_preset;
    privacy_mode = t.privacy_mode;
    provider_identity = t.provider_identity;
  }

  abbrev pub document_manager : ActiveDocumentTranslation d c h → DocumentLoop d c h k → c.Manager
  document_manager t s = elim t.provider_manager [
    | some manager ↦ manager
    | none ↦ elim s.routing_manager [ some manager ↦ manager | none ↦ s.manager ]
  ]

  abbrev pub with_manager :
      Option c.Manager
      → Outcome d (ActiveDocumentTranslation d c h)
      → Outcome d (ActiveDocumentTranslation d c h)
  with_manager provider_manager (done t) = done record t { provider_manager = provider_manager }
  with_manager provider_manager (failed e) = failed e

  -- The next segment of the job.
  abbrev pub next_segment :
      ActiveDocumentTranslation d c h → k.Snapshot → DocumentLoop d c h k → DocumentLoop d c h k
  next_segment t snapshot s =
      activate_in
        (with_manager t.provider_manager (
          begin_document_segment h k (document_manager t s) s.active_profile (some t.model_id)
            t.job_id (k.job snapshot) (next_options t)))
        s

  abbrev or_before : k.Snapshot → Outcome d k.Snapshot → k.Snapshot
  or_before snapshot (done after) = after
  or_before snapshot (failed e) = snapshot

  -- The job is paused where that was asked for and it is not completed.
  abbrev pub paused_if_asked :
      ActiveDocumentTranslation d c h
      → k.Snapshot
      → Option c.Storage
      → Option c.Storage × k.Snapshot
  paused_if_asked t snapshot storage =
      if t.pause_requested && not (is_job_state (k.state snapshot) k.job_completed)
      then (let (after, outcome) =
            with_storage (λ s. k.set_document_job_state s t.job_id k.job_paused) storage in
          (after, or_before snapshot outcome))
      else (storage, snapshot)

  -- The segment is stored.
  abbrev pub segment_stored :
      ActiveDocumentTranslation d c h → k.Snapshot → DocumentLoop d c h k → DocumentLoop d c h k
  segment_stored t stored s =
      let paused = paused_if_asked t stored s.storage in
      let snapshot = paused.1 in
      let told = send_or_stop (document_job_updated snapshot) record s { storage = paused.0 } in
      if s.is_closed
      then told
      else if not (is_job_state (k.state snapshot) k.job_completed)
          && not t.stop_after_active
          && not t.pause_requested
      then next_segment t snapshot told
      else told

  abbrev pub segment_completed :
      ActiveDocumentTranslation d c h → DocumentLoop d c h k → DocumentLoop d c h k
  segment_completed t s =
      let update =
        with_storage (λ x. k.update_document_segment x t.job_id t.segment_index t.output)
          s.storage in
      elim update.1 [
        | failed e ↦ reject_action e record s { storage = update.0 }
        | done stored ↦ segment_stored t stored record s { storage = update.0 }
      ]

  -- The state of a job whose segment ends without a translation.
  abbrev pub state_after : ActiveDocumentTranslation d c h → k.JobState
  state_after t =
      if t.pause_requested
      then k.job_paused
      else if t.cancel_requested
      then k.job_cancelled
      else k.job_failed

  abbrev pub segment_failed :
      ActiveDocumentTranslation d c h → DocumentLoop d c h k → DocumentLoop d c h k
  segment_failed t s =
      let update =
        with_storage (λ x. k.set_document_job_state x t.job_id (state_after t)) s.storage in
      elim update.1 [
        | failed e ↦ reject_action e record s { storage = update.0 }
        | done snapshot ↦ tell (document_job_updated snapshot) record s { storage = update.0 }
      ]

  abbrev pub segment_ended :
      Bool → ActiveDocumentTranslation d c h → DocumentLoop d c h k → DocumentLoop d c h k
  segment_ended completed t s =
      let after =
        (if completed
          then segment_completed t s
          else if t.stop_after_active
          then s
          else segment_failed t s) in
      record after { shutting_down = t.stop_after_active || after.shutting_down }

  -- An event of the segment that the job is translating.
  abbrev pub segment_event :
      ActiveDocumentTranslation d c h → d.Event → DocumentLoop d c h k → DocumentLoop d c h k
  segment_event running e s =
      let t = record running { output = push_text running.output (d.body e) } in
      let told =
        send_or_stop (document_job_segment t.job_id t.segment_index e)
          record s { active_documents = remove_document running.job_id s.active_documents } in
      if told.shutting_down
      then told
      else if is_terminal_event (d.body e)
      then segment_ended (is_completed_event (d.body e)) t told
      else record told { active_documents = t ∷ told.active_documents }

  -- `set_document_cancellations`.
  unfoldable pub set_document_cancellations : DocumentLoop d c h k → DocumentLoop d c h k
  set_document_cancellations s = record s {
    active_cancellation =
        if is_empty s.active_documents
        then none
        else some (map (λ (t : ActiveDocumentTranslation d c h). t.operation) s.active_documents);
  }

  -- `DocumentTaskEvent::Event`. An event of no running job, or of an earlier segment, is left.
  unfoldable pub document_event : Text → ℕ → d.Event → DocumentLoop d c h k → DocumentLoop d c h k
  unfolding set_document_cancellations
  document_event job_id segment_index e s = elim (get_document job_id s.active_documents) [
    | none ↦ s
    | some t ↦
        if not (t.segment_index == segment_index)
        then record s { active_documents = t ∷ remove_document job_id s.active_documents }
        else set_document_cancellations (segment_event t e s)
  ]

  -- `DocumentTaskEvent::StreamEnded`.
  unfoldable pub document_stream_ended : Text → DocumentLoop d c h k → DocumentLoop d c h k
  unfolding set_document_cancellations
  document_stream_ended job_id s = elim (get_document job_id s.active_documents) [
    | none ↦ set_document_cancellations s
    | some t ↦
        let left = record s { active_documents = remove_document job_id s.active_documents } in
        let told =
          (if t.stop_after_active
            then left
            else record (reject_action
                (d.error_new internal
                  (codes "The document translation event stream ended without a terminal event."))
                left) {
                  storage =
                      (with_storage (λ x. k.set_document_job_state x t.job_id k.job_failed)
                        s.storage).0;
                }) in
        set_document_cancellations
          record told { shutting_down = told.shutting_down || t.stop_after_active }
  ]
