-- ===== src/Worker/Documents/Start.antt =====
use linguamesh_linux.Domain.{Domain, invalid_configuration, model_unavailable}
use linguamesh_linux.Worker.Storage.{Core, Outcome, done, and_then, failed, ok_or_else}
use linguamesh_linux.Worker.Host.{Host}
use linguamesh_linux.Worker.Documents.{
  DocumentCore, DocumentTranslationOptions, ActiveDocumentTranslation, DocumentJobOptions,
}
use linguamesh_linux.Worker.Documents.Segment.{begin_document_segment}
use linguamesh_linux.Prelude.Text.{Text, codes, Text-discrete}
use linguamesh_linux.Prelude.{
  Bool, Option, does, if◌then◌else◌, not, ◌||◌, none, false, ◌==◌, is_some_and,
}

-- src/worker.rs: the start of the translation of a document job, with the options of the command or
-- with those that the store keeps.
module _ {d : Domain} {c : Core d} (h : Host d c) (k : DocumentCore d c) where
  -- `?` on a call that changes the store.
  abbrev pub chain :
      {A B : Type 0}
      → c.Storage × Outcome d A
      → (c.Storage → A → c.Storage × Outcome d B)
      → c.Storage × Outcome d B
  chain (s, done a) f = f s a
  chain (s, failed e) f = (s, failed e)

  abbrev invalid : Text → d.TranslationError
  invalid message = d.error_new invalid_configuration message

  abbrev pub is_state : k.JobState → k.JobState → Bool
  is_state a b = does (k.state_discrete a b)

  abbrev pub is_allowed : Bool → k.JobState → Bool
  is_allowed retry s =
      if retry
      then is_state s k.job_pending
        || is_state s k.job_running
        || is_state s k.job_paused
        || is_state s k.job_cancelled
        || is_state s k.job_failed
      else k.is_resumable s

  -- `storage.document_job(job_id)?.ok_or_else(..)?`.
  abbrev pub known_job : c.Storage → Text → Outcome d k.Snapshot
  known_job storage job_id =
      and_then (k.document_job storage job_id)
        λ o. ok_or_else o (invalid (codes "The document job was not found."))

  -- The job, if it may start.
  abbrev pub startable : c.Storage → Text → Bool → Outcome d k.Snapshot
  startable storage job_id retry = and_then (known_job storage job_id) λ snapshot.
      if not (is_allowed retry (k.state snapshot))
      then failed (invalid (codes "The document job is not ready to translate."))
      else if k.pending_count (k.job snapshot) == 0
      then failed (invalid (codes "The document job has no pending segments."))
      else done snapshot

  unfoldable pub prepare_document_job_for_start :
      c.Storage → Text → Bool → c.Storage × Outcome d k.Snapshot
  prepare_document_job_for_start storage job_id retry =
      chain (storage, startable storage job_id retry)
        λ s _. k.set_document_job_state s job_id k.job_running

  unfoldable pub persisted_document_options :
      Option d.Profile
      → Option Text
      → DocumentTranslationOptions d
      → Outcome d (DocumentJobOptions d)
  persisted_document_options active_profile selected_model o =
      and_then
        (ok_or_else selected_model (
          d.error_new model_unavailable
            (codes "Select a model before translating a document job.")))
        λ model_id.
          and_then
            (ok_or_else active_profile
              (invalid (codes "Connect an active provider before translating a document job.")))
            λ p. done record {
              source_locale = o.source_locale;
              target_locale = o.target_locale;
              model_id = model_id;
              provider_id = d.as_str (d.id p);
              routing_profile_id = none;
              quality_mode = o.quality_mode;
              translation_preset = o.translation_preset;
              glossary = o.glossary;
            }

  unfoldable pub start_document_job_translation :
      c.Storage
      → c.Manager
      → Option d.Profile
      → Option Text
      → Text
      → DocumentTranslationOptions d
      → Bool
      → c.Storage × Outcome d (ActiveDocumentTranslation d c h)
  unfolding prepare_document_job_for_start
  start_document_job_translation storage manager active_profile selected_model job_id o retry =
      chain (prepare_document_job_for_start storage job_id retry) λ s snapshot. (
        s,
        begin_document_segment h k manager active_profile selected_model job_id (k.job snapshot) o,
      )

  -- The options of the command, without an identity of the provider.
  unfoldable pub start_plain_document_job_translation :
      c.Storage
      → c.Manager
      → Option d.Profile
      → Option Text
      → Text
      → DocumentTranslationOptions d
      → c.Storage × Outcome d (ActiveDocumentTranslation d c h)
  unfolding persisted_document_options
  start_plain_document_job_translation storage manager active_profile selected_model job_id o =
      if d.is_incognito_mode o.privacy_mode
      then (
        storage,
        failed (invalid (codes "Incognito mode cannot persist document job progress.")),
      )
      else chain (storage, persisted_document_options active_profile selected_model o)
          λ s options.
            chain (s, startable s job_id false)
              λ s _. chain (k.save_document_job_options s job_id options) λ s _.
                chain (k.set_document_job_state s job_id k.job_running) λ s running. (
                  s,
                  begin_document_segment h k manager active_profile selected_model job_id
                      (k.job running) record o { provider_identity = none },
                )

  -- The options that are kept for the job, if the active provider and the model are the saved ones.
  abbrev pub saved_options :
      Option d.Profile → Option Text → k.Snapshot → Outcome d (DocumentTranslationOptions d)
  saved_options active_profile selected_model snapshot =
      and_then
        (ok_or_else (k.options snapshot)
          (invalid (codes "The document job has no saved translation options; start it again.")))
        λ o.
          and_then
            (ok_or_else active_profile
              (invalid (codes "Reconnect the saved provider before resuming this document job.")))
            λ p.
              if not (does (Text-discrete (d.as_str (d.id p)) o.provider_id))
              then failed
                  (invalid (codes "The saved document provider is not the active provider."))
              else if not (is_some_and selected_model (λ m. does (Text-discrete m o.model_id)))
              then failed (
                  d.error_new model_unavailable
                    (codes "Select the saved document model before resuming this document job."))
              else done record {
                source_locale = o.source_locale;
                target_locale = o.target_locale;
                glossary = o.glossary;
                quality_mode = o.quality_mode;
                translation_preset = o.translation_preset;
                privacy_mode = d.standard;
                provider_identity = none;
              }

  unfoldable pub start_persisted_document_job_translation :
      c.Storage
      → c.Manager
      → Option d.Profile
      → Option Text
      → Text
      → Bool
      → c.Storage × Outcome d (ActiveDocumentTranslation d c h)
  unfolding start_document_job_translation
  start_persisted_document_job_translation storage manager active_profile selected_model job_id
        retry =
      chain
        (storage, and_then (known_job storage job_id) (saved_options active_profile selected_model))
        λ s o. start_document_job_translation s manager active_profile selected_model job_id o retry
