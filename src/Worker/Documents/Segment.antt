-- ===== src/Worker/Documents/Segment.antt =====
-- src/worker.rs, `begin_document_segment`: the start of the next segment of a document job.
use linguamesh_linux.Worker.Documents.{
  DocumentCore, DocumentSegment, DocumentTranslationOptions, ActiveDocumentTranslation,
}
use linguamesh_linux.Prelude.{
  ℕ, List, Option, none, ◌∷◌, is_some, some, [], false, inl, if◌then◌else◌, ◌&&◌, not, inr,
}
use linguamesh_linux.Domain.{Domain, invalid_configuration, model_unavailable}
use linguamesh_linux.Worker.Storage.{Core, Outcome, and_then, done, failed, ok_or_else}
use linguamesh_linux.Prelude.Text.{Text, codes}
use linguamesh_linux.Worker.Host.{Host}
use linguamesh_linux.Model.Translation.{given_glossary}
use linguamesh_linux.Worker.Relay.Attempts.{joined_at}
use linguamesh_linux.Worker.Candidates.{begin_translation}

-- `segments.iter().find(..)`: the first prose segment that is not translated.
unfoldable pub pending_segment : List DocumentSegment → Option DocumentSegment
pending_segment [] = none
pending_segment (x ∷ xs) =
    let rest = pending_segment xs in
    if x.is_prose && not (is_some x.translated_text) then some x else rest

module _ {d : Domain} {c : Core d} (h : Host d c) (k : DocumentCore d c) where
  abbrev given_locale : Option Text → d.Request → d.Request
  given_locale none r = r
  given_locale (some l) r = d.with_source_locale r (some l)

  abbrev given_identity : Option Text → d.Request → d.Request
  given_identity none r = r
  given_identity (some i) r = h.with_provider_identity r i

  -- The identity of the provider: that of the options, or that of the active profile.
  abbrev pub document_identity : Option Text → Option d.Profile → Option Text
  document_identity (some i) p = some i
  document_identity none none = none
  document_identity none (some p) = some (joined_at (d.as_str (d.id p)) (d.base_endpoint p))

  unfoldable pub document_request :
      Text → Text → Option Text → DocumentTranslationOptions d → d.Request
  document_request source_text model_id identity o =
      let r = d.request_new source_text o.target_locale model_id in
      let r = d.with_privacy_mode r o.privacy_mode in
      let r = d.with_quality_mode r o.quality_mode in
      let r = d.with_preset r o.translation_preset in
      let r = given_glossary d o.glossary r in
      let r = given_locale o.source_locale r in given_identity identity r

  abbrev with_operation :
      Text
      → ℕ
      → Text
      → Option Text
      → DocumentTranslationOptions d
      → h.Operation
      → ActiveDocumentTranslation d c h
  with_operation job_id segment_index model_id identity o operation = record {
    job_id = job_id;
    segment_index = segment_index;
    source_locale = o.source_locale;
    target_locale = o.target_locale;
    glossary = o.glossary;
    quality_mode = o.quality_mode;
    translation_preset = o.translation_preset;
    privacy_mode = o.privacy_mode;
    model_id = model_id;
    provider_identity = identity;
    operation = operation;
    provider_manager = none;
    output = [];
    cancel_requested = false;
    pause_requested = false;
    stop_after_active = false;
  }

  abbrev source_of : k.Job → ℕ → Outcome d Text
  source_of job index = elim (k.translation_source_text job index) [
    | inl message ↦ failed (d.error_new invalid_configuration message)
    | inr text ↦ done text
  ]

  unfoldable pub begin_document_segment :
      c.Manager
      → Option d.Profile
      → Option Text
      → Text
      → k.Job
      → DocumentTranslationOptions d
      → Outcome d (ActiveDocumentTranslation d c h)
  unfolding document_request pending_segment
  begin_document_segment manager active_profile selected_model job_id job o =
      and_then
        (ok_or_else (pending_segment (k.segments job)) (
          d.error_new invalid_configuration
            (codes "The document job has no pending prose segment.")))
        λ segment.
          and_then
            (ok_or_else selected_model (
              d.error_new model_unavailable
                (codes "Select a model before translating a document job.")))
            λ model_id. and_then (source_of job segment.index) λ source_text.
              let identity = document_identity o.provider_identity active_profile in
              and_then
                (begin_translation h manager selected_model
                  (document_request source_text model_id identity o))
                λ a. done (with_operation job_id segment.index model_id identity o a.operation)
