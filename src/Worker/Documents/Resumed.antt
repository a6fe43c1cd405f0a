-- ===== src/Worker/Documents/Resumed.antt =====
-- src/worker.rs: a document job that is resumed or tried again, with its saved options.
use linguamesh_linux.Prelude.{Option, Bool, is_some_and, is_some, if◌then◌else◌, none}
use linguamesh_linux.Worker.Host.{Host}
use linguamesh_linux.Domain.{Domain, invalid_configuration}
use linguamesh_linux.Prelude.Text.{Text, codes}
use linguamesh_linux.Worker.Storage.{Core, Outcome, failed, and_then, done, ok_or_else}
use linguamesh_linux.Worker.Documents.{
  ActiveDocumentTranslation, DocumentCore, DocumentTranslationOptions,
}
use linguamesh_linux.Worker.Documents.Start.{start_persisted_document_job_translation, known_job}
use linguamesh_linux.Worker.Documents.Routed.{
  RoutingCore, RoutedDocumentStart, start_routed_document_job_translation,
}

pub data ResumedDocumentStart (d : Domain) (c : Core d) (h : Host d c) : Type 0 where
  plain : ActiveDocumentTranslation d c h → ResumedDocumentStart d c h
  routed : RoutedDocumentStart d c h → ResumedDocumentStart d c h

module _ {d : Domain} {c : Core d} (h : Host d c) (k : DocumentCore d c) (r : RoutingCore d c) where
  -- The saved options of a job with a routing profile, and that profile.
  abbrev saved_routing : c.Storage → Text → Outcome d (DocumentTranslationOptions d × Text)
  saved_routing storage job_id = and_then (known_job h k storage job_id) λ snapshot.
      and_then
        (ok_or_else (k.options snapshot) (
          d.error_new invalid_configuration
            (codes "The document job has no saved translation options; start it again.")))
        λ o.
          and_then
            (ok_or_else o.routing_profile_id (
              d.error_new invalid_configuration
                (codes "The document job has no saved routing profile; start it again.")))
            λ routing_profile_id. done (
              record {
                source_locale = o.source_locale;
                target_locale = o.target_locale;
                glossary = o.glossary;
                quality_mode = o.quality_mode;
                translation_preset = o.translation_preset;
                privacy_mode = d.standard;
                provider_identity = none;
              },
              routing_profile_id,
            )

  unfoldable pub start_persisted_routed_document_job_translation :
      h.World
      → c.Storage
      → Text
      → Bool
      → h.World × (c.Storage × Outcome d (RoutedDocumentStart d c h))
  unfolding start_routed_document_job_translation
  start_persisted_routed_document_job_translation w storage job_id retry =
      elim (saved_routing storage job_id) [
        | failed e ↦ (w, (storage, failed e))
        | done (o, routing_profile_id) ↦
            start_routed_document_job_translation h k r w storage job_id o routing_profile_id retry
      ]

  abbrev has_routing : k.Snapshot → Bool
  has_routing snapshot = is_some_and (k.options snapshot) (λ o. is_some o.routing_profile_id)

  abbrev map_outcome : {A B : Type 0} → (A → B) → Outcome d A → Outcome d B
  map_outcome f (done a) = done (f a)
  map_outcome f (failed e) = failed e

  unfoldable pub start_resumable_document_job_translation :
      h.World
      → c.Storage
      → c.Manager
      → Option d.Profile
      → Option Text
      → Text
      → Bool
      → h.World × (c.Storage × Outcome d (ResumedDocumentStart d c h))
  unfolding start_persisted_routed_document_job_translation start_persisted_document_job_translation
  start_resumable_document_job_translation w storage manager active_profile selected_model job_id
        retry =
      elim (known_job h k storage job_id) [
        | failed e ↦ (w, (storage, failed e))
        | done snapshot ↦
            if has_routing snapshot
            then (let (after, (s, outcome)) =
                  start_persisted_routed_document_job_translation w storage job_id retry in
                (after, (s, map_outcome routed outcome)))
            else (let (s, outcome) =
                  start_persisted_document_job_translation h k storage manager active_profile
                    selected_model job_id retry in
                (w, (s, map_outcome plain outcome)))
      ]
